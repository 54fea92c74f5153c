-- ===== src/Poller/Devices/Inside.antt =====
-- Where a device record stands in a response, and whether it is among those that are yielded.
use itdashboard.Prelude.{ℕ, suc, ◌≡◌, ◌⊎◌, String, true, false, inl, inr, List, [], ◌∷◌, ◌++◌}
use itdashboard.Poller.Json.{Json, array, object, Items, cons, Fields, field}
use itdashboard.Poller.Devices.{Located, looks_like_device}

module _ {F : Type 0} where
  -- The record `d` stands in a value, under no more containers than `n`, and in no other record
  -- that looks like a device.
  mutual
    pub data Inside : ℕ → Json F → Fields F → Type 0 where
      here : {n : ℕ} {d : Fields F} → looks_like_device d ≡ true → Inside n (object d) d
      in_object :
          {n : ℕ} {fs d : Fields F}
          → looks_like_device fs ≡ false
          → InsideFields n fs d
          → Inside (suc n) (object fs) d
      in_array :
          {n : ℕ} {xs : Items F} {d : Fields F} → InsideItems n xs d → Inside (suc n) (array xs) d

    pub data InsideFields : ℕ → Fields F → Fields F → Type 0 where
      this_field :
          {n : ℕ} {k : String} {v : Json F} {fs d : Fields F}
          → Inside n v d
          → InsideFields n (field k v fs) d
      later_field :
          {n : ℕ} {k : String} {v : Json F} {fs d : Fields F}
          → InsideFields n fs d
          → InsideFields n (field k v fs) d

    pub data InsideItems : ℕ → Items F → Fields F → Type 0 where
      this_item :
          {n : ℕ} {v : Json F} {xs : Items F} {d : Fields F}
          → Inside n v d
          → InsideItems n (cons v xs) d
      later_item :
          {n : ℕ} {v : Json F} {xs : Items F} {d : Fields F}
          → InsideItems n xs d
          → InsideItems n (cons v xs) d

  abbrev pub Among : Fields F → List (Located F) → Type 0
  Among d [] = ⊥
  Among d (x ∷ xs) = (x.device ≡ d) ⊎ Among d xs

  pub append-Among_left :
      (d : Fields F) (xs ys : List (Located F)) → Among d xs → Among d (xs ++ ys)
  append-Among_left d [] ys h = absurd h
  append-Among_left d (x ∷ xs) ys (inl h) = inl h
  append-Among_left d (x ∷ xs) ys (inr h) = inr (append-Among_left d xs ys h)

  pub append-Among_right :
      (d : Fields F) (xs ys : List (Located F)) → Among d ys → Among d (xs ++ ys)
  append-Among_right d [] ys h = h
  append-Among_right d (x ∷ xs) ys h = inr (append-Among_right d xs ys h)

  pub append-Among :
      (d : Fields F) (xs ys : List (Located F)) → Among d (xs ++ ys) → Among d xs ⊎ Among d ys
  append-Among d [] ys h = inr h
  append-Among d (x ∷ xs) ys (inl h) = inl (inl h)
  append-Among d (x ∷ xs) ys (inr h) = elim (append-Among d xs ys h) [
    | inl k ↦ inl (inr k)
    | inr k ↦ inr k
  ]
