-- ===== src/Poller/Devices/Walk.antt =====
-- Which records iter_devices yields.
use itdashboard.Prelude.{
  ℕ, zero, suc, ◌+◌, ◌≤◌, ◌≡◌, ◌↔◌, ◌⊎◌, refl, String, true, false, inl, inr, [], ◌++◌, arith, ltb,
  Bool-cases,
}
use itdashboard.Poller.Json.{
  Json, null, bool, number, text, array, object, Items, nil, cons, Fields, end, field, Python,
}
use itdashboard.Poller.Devices.{
  looks_like_device, domain_under, site_under, walk, walk_fields, walk_items, iter_devices,
}
use itdashboard.Poller.Devices.Inside.{
  Inside, here, in_object, in_array, InsideFields, this_field, later_field, InsideItems, this_item,
  later_item, Among, append-Among_left, append-Among_right, append-Among,
}

module _ {F : Type 0} (py : Python F) where
  -- A value that is no container is not walked, and would yield nothing.
  pub walk_fields_cons :
      (domain site : Json F) (depth : ℕ) (k : String) (v : Json F) (rest : Fields F)
      → walk_fields py domain site depth (field k v rest)
        ≡ walk py (domain_under k domain) (site_under k domain site) (depth + 1) v
          ++ walk_fields py domain site depth rest
  unfolding walk
  walk_fields_cons domain site depth k null rest = refl
  walk_fields_cons domain site depth k (bool b) rest = refl
  walk_fields_cons domain site depth k (number n) rest = refl
  walk_fields_cons domain site depth k (text s) rest = refl
  walk_fields_cons domain site depth k (array xs) rest = refl
  walk_fields_cons domain site depth k (object fs) rest = refl

  walk_deep :
      (domain site : Json F) (depth : ℕ) (v : Json F) → 9 ≤ depth → walk py domain site depth v ≡ []
  unfolding walk
  walk_deep domain site depth (object d) h =
      let deep : ltb 8 depth ≡ true = ground arith in rw deep refl
  walk_deep domain site depth (array items) h =
      let deep : ltb 8 depth ≡ true = ground arith in rw deep refl
  walk_deep domain site depth _ h = refl

  walk_fields_deep :
      (domain site : Json F) (depth : ℕ) (fs : Fields F)
      → 8 ≤ depth
      → walk_fields py domain site depth fs ≡ []
  unfolding walk
  walk_fields_deep domain site depth end h = refl
  walk_fields_deep domain site depth (field k v fs) h =
      let under =
        walk_deep (domain_under k domain) (site_under k domain site) (depth + 1) v (omega arith) in
      rw (walk_fields_cons domain site depth k v fs, under)
        (walk_fields_deep domain site depth fs h)

  walk_items_deep :
      (domain site : Json F) (depth : ℕ) (xs : Items F)
      → 8 ≤ depth
      → walk_items py domain site depth xs ≡ []
  unfolding walk
  walk_items_deep domain site depth nil h = refl
  walk_items_deep domain site depth (cons v xs) h =
      rw (walk_deep domain site (depth + 1) v (omega arith))
        (walk_items_deep domain site depth xs h)

  mutual
    unfolding walk

    walk_complete :
        (domain site : Json F) (depth n : ℕ) (v : Json F) (d : Fields F)
        → Inside n v d
        → depth + n ≤ 8
        → Among d (walk py domain site depth v)
    walk_complete domain site depth n (object _) d (here e) h =
        let shallow : ltb 8 depth ≡ false = ground arith in rw (shallow, e) (inl refl)
    walk_complete domain site depth (suc n) (object fs) d (in_object e i) h =
        let k = walk_fields_complete domain site depth n fs d i (omega arith) in
        let shallow : ltb 8 depth ≡ false = ground arith in rw (shallow, e) k
    walk_complete domain site depth (suc n) (array xs) d (in_array i) h =
        let k = walk_items_complete domain site depth n xs d i (omega arith) in
        let shallow : ltb 8 depth ≡ false = ground arith in rw shallow k
    walk_complete domain site depth n _ d i h = elim i [ ]

    walk_fields_complete :
        (domain site : Json F) (depth n : ℕ) (fs d : Fields F)
        → InsideFields n fs d
        → depth + n + 1 ≤ 8
        → Among d (walk_fields py domain site depth fs)
    walk_fields_complete domain site depth n end d i h = elim i [ ]
    walk_fields_complete domain site depth n (field k v fs) d (this_field i) h =
        rw (walk_fields_cons domain site depth k v fs) (
          append-Among_left d _ _ (
            walk_complete (domain_under k domain) (site_under k domain site) (depth + 1) n v d i
              (omega arith)))
    walk_fields_complete domain site depth n (field k v fs) d (later_field i) h =
        rw (walk_fields_cons domain site depth k v fs)
          (append-Among_right d _ _ (walk_fields_complete domain site depth n fs d i h))

    walk_items_complete :
        (domain site : Json F) (depth n : ℕ) (xs : Items F) (d : Fields F)
        → InsideItems n xs d
        → depth + n + 1 ≤ 8
        → Among d (walk_items py domain site depth xs)
    walk_items_complete domain site depth n nil d i h = elim i [ ]
    walk_items_complete domain site depth n (cons v xs) d (this_item i) h =
        append-Among_left d _ _ (walk_complete domain site (depth + 1) n v d i (omega arith))
    walk_items_complete domain site depth n (cons v xs) d (later_item i) h =
        append-Among_right d _ _ (walk_items_complete domain site depth n xs d i h)

  object_sound :
      (domain site : Json F) (depth n : ℕ) (fs d : Fields F)
      → depth + n ≡ 8
      → looks_like_device fs ≡ false
      → Among d (walk_fields py domain site depth fs)
      → ((m : ℕ) → depth + m + 1 ≡ 8 → InsideFields m fs d)
      → Inside n (object fs) d
  object_sound domain site depth zero fs d h e i f =
      absurd (rw (walk_fields_deep domain site depth fs (omega arith)) at i)
  object_sound domain site depth (suc n) fs d h e i f = in_object e (f n (omega arith))

  array_sound :
      (domain site : Json F) (depth n : ℕ) (xs : Items F) (d : Fields F)
      → depth + n ≡ 8
      → Among d (walk_items py domain site depth xs)
      → ((m : ℕ) → depth + m + 1 ≡ 8 → InsideItems m xs d)
      → Inside n (array xs) d
  array_sound domain site depth zero xs d h i f =
      absurd (rw (walk_items_deep domain site depth xs (omega arith)) at i)
  array_sound domain site depth (suc n) xs d h i f = in_array (f n (omega arith))

  mutual
    unfolding walk

    walk_sound :
        (domain site : Json F) (depth n : ℕ) (v : Json F) (d : Fields F)
        → depth + n ≡ 8
        → Among d (walk py domain site depth v)
        → Inside n v d
    walk_sound domain site depth n (object fs) d h i =
        let shallow : ltb 8 depth ≡ false = ground arith in
        elim (Bool-cases (looks_like_device fs)) [
          | inl e ↦
              let one : (fs ≡ d) ⊎ ⊥ = rw (shallow, e) at i in
              elim one [ inl same ↦ rw (← same) (here e) | inr never ↦ absurd never ]
          | inr e ↦
              let deeper : Among d (walk_fields py domain site depth fs) = rw (shallow, e) at i in
              object_sound domain site depth n fs d h e deeper
                (λ m k. walk_fields_sound domain site depth m fs d k deeper)
        ]
    walk_sound domain site depth n (array xs) d h i =
        let shallow : ltb 8 depth ≡ false = ground arith in
        let deeper : Among d (walk_items py domain site depth xs) = rw shallow at i in
        array_sound domain site depth n xs d h deeper
          (λ m k. walk_items_sound domain site depth m xs d k deeper)
    walk_sound domain site depth n _ d h i = absurd i

    walk_fields_sound :
        (domain site : Json F) (depth n : ℕ) (fs d : Fields F)
        → depth + n + 1 ≡ 8
        → Among d (walk_fields py domain site depth fs)
        → InsideFields n fs d
    walk_fields_sound domain site depth n end d h i = absurd i
    walk_fields_sound domain site depth n (field k v fs) d h i =
        elim (append-Among d _ _ (rw (walk_fields_cons domain site depth k v fs) at i)) [
          | inl i ↦ this_field (
              walk_sound (domain_under k domain) (site_under k domain site) (depth + 1) n v d
                (omega arith) i)
          | inr i ↦ later_field (walk_fields_sound domain site depth n fs d h i)
        ]

    walk_items_sound :
        (domain site : Json F) (depth n : ℕ) (xs : Items F) (d : Fields F)
        → depth + n + 1 ≡ 8
        → Among d (walk_items py domain site depth xs)
        → InsideItems n xs d
    walk_items_sound domain site depth n nil d h i = absurd i
    walk_items_sound domain site depth n (cons v xs) d h i = elim (append-Among d _ _ i) [
      | inl i ↦ this_item (walk_sound domain site (depth + 1) n v d (omega arith) i)
      | inr i ↦ later_item (walk_items_sound domain site depth n xs d h i)
    ]

  -- iter_devices yields exactly the records that look like a device, lie in no other such record,
  -- and stand under at most eight containers.
  pub iter_devices_lem :
      (response : Json F) (d : Fields F) → Among d (iter_devices py response) ↔ Inside 8 response d
  unfolding iter_devices
  iter_devices_lem response d = (
    walk_sound null null 0 8 response d refl,
    λ i. walk_complete null null 0 8 response d i (omega arith),
  )
