-- ===== src/Poller/Config/Redact.antt =====
-- What redact hides, and that it hides nothing else.
use itdashboard.Prelude.{
  ◌≡◌, ◌↔◌, refl, ap, sym, Bool, arith, true, false, inl, inr, if◌then◌else◌, Bool-cases,
}
use itdashboard.Poller.Json.{
  Json, text, array, object, Items, nil, cons, Fields, end, field, Python,
}
use itdashboard.Poller.Config.{is_secret, redact, redact_items, redact_fields}

module _ {F : Type 0} (py : Python F) where
  -- Two values are alike if they differ in the values of secret keys only.
  unfoldable mutual
    pub Alike : Json F → Json F → Type 0
    Alike (array xs) (array ys) = AlikeItems xs ys
    Alike (object fs) (object gs) = AlikeFields fs gs
    Alike v w = v ≡ w

    pub AlikeItems : Items F → Items F → Type 0
    AlikeItems nil nil = Unit
    AlikeItems (cons v xs) (cons w ys) = Alike v w × AlikeItems xs ys
    AlikeItems xs ys = ⊥

    pub AlikeFields : Fields F → Fields F → Type 0
    AlikeFields end end = Unit
    AlikeFields (field k v fs) (field l w gs) =
        let same = Alike v w in
        (k ≡ l) × (if is_secret py k then Unit else same) × AlikeFields fs gs
    AlikeFields fs gs = ⊥

  -- Every secret key holds "***".
  unfoldable mutual
    pub Hides : Json F → Type 0
    Hides (array xs) = HidesItems xs
    Hides (object fs) = HidesFields fs
    Hides v = Unit

    pub HidesItems : Items F → Type 0
    HidesItems nil = Unit
    HidesItems (cons v xs) = Hides v × HidesItems xs

    pub HidesFields : Fields F → Type 0
    HidesFields end = Unit
    HidesFields (field k v fs) =
        let hidden = Hides v in (if is_secret py k then v ≡ text "***" else hidden) × HidesFields fs

  shown_of_hidden :
      {H : Type 0} (secret : Bool) (v r : Json F)
      → (if secret then v ≡ text "***" else H)
      → (H → r ≡ v)
      → (if secret then text "***" else r) ≡ v
  shown_of_hidden true v r h f = sym h
  shown_of_hidden false v r h f = f h

  masked :
      {S : Type 0} {r t : Json F} (secret : Bool)
      → (if secret then Unit else S)
      → (S → r ≡ t)
      → (if secret then text "***" else r) ≡ (if secret then text "***" else t)
  masked true h f = refl
  masked false h f = f h

  unmasked :
      {S : Type 0} {r t : Json F} (secret : Bool)
      → (if secret then text "***" else r) ≡ (if secret then text "***" else t)
      → (r ≡ t → S)
      → (if secret then Unit else S)
  unmasked true h f = tt
  unmasked false h f = f h

  mutual
    unfolding redact Hides

    redact-Hides : (v : Json F) → Hides (redact py v)
    redact-Hides (array xs) = redact_items-Hides xs
    redact-Hides (object fs) = redact_fields-Hides fs
    redact-Hides _ = tt

    redact_items-Hides : (xs : Items F) → HidesItems (redact_items py xs)
    redact_items-Hides nil = tt
    redact_items-Hides (cons v xs) = (redact-Hides v, redact_items-Hides xs)

    redact_fields-Hides : (fs : Fields F) → HidesFields (redact_fields py fs)
    redact_fields-Hides end = tt
    redact_fields-Hides (field k v fs) =
        let shown = redact-Hides v in
        let rest = redact_fields-Hides fs in
        elim (Bool-cases (is_secret py k)) [
          | inl e ↦ rw e (refl, rest)
          | inr e ↦ rw e (shown, rest)
        ]

  mutual
    unfolding redact Hides

    redact_of_Hides : (v : Json F) → Hides v → redact py v ≡ v
    redact_of_Hides (array xs) h = ap array (redact_items_of_Hides xs h)
    redact_of_Hides (object fs) h = ap object (redact_fields_of_Hides fs h)
    redact_of_Hides _ h = refl

    redact_items_of_Hides : (xs : Items F) → HidesItems xs → redact_items py xs ≡ xs
    redact_items_of_Hides nil h = refl
    redact_items_of_Hides (cons v xs) h =
        let a = redact_of_Hides v h.0 in let b = redact_items_of_Hides xs h.1 in cc (a, b)

    redact_fields_of_Hides : (fs : Fields F) → HidesFields fs → redact_fields py fs ≡ fs
    redact_fields_of_Hides end h = refl
    redact_fields_of_Hides (field k v fs) h =
        let a = shown_of_hidden (is_secret py k) v (redact py v) h.0 (redact_of_Hides v) in
        let b = redact_fields_of_Hides fs h.1 in cc (a, b)

  mutual
    unfolding redact Alike

    redact_of_Alike : (v w : Json F) → Alike v w → redact py v ≡ redact py w
    redact_of_Alike (array xs) (array ys) h = ap array (redact_items_of_Alike xs ys h)
    redact_of_Alike (object fs) (object gs) h = ap object (redact_fields_of_Alike fs gs h)
    redact_of_Alike v w h = ap (redact py) h

    redact_items_of_Alike :
        (xs ys : Items F) → AlikeItems xs ys → redact_items py xs ≡ redact_items py ys
    redact_items_of_Alike nil nil h = refl
    redact_items_of_Alike (cons v xs) (cons w ys) h =
        let a = redact_of_Alike v w h.0 in let b = redact_items_of_Alike xs ys h.1 in cc (a, b)
    redact_items_of_Alike xs ys h = absurd h

    redact_fields_of_Alike :
        (fs gs : Fields F) → AlikeFields fs gs → redact_fields py fs ≡ redact_fields py gs
    redact_fields_of_Alike end end h = refl
    redact_fields_of_Alike (field k v fs) (field l w gs) h =
        let (key, same, others) = h in
        let a = masked (is_secret py k) same (redact_of_Alike v w) in
        let b = redact_fields_of_Alike fs gs others in cc (key, a, b)
    redact_fields_of_Alike fs gs h = absurd h

  mutual
    unfolding redact Alike

    redact-Alike : (v w : Json F) → redact py v ≡ redact py w → Alike v w
    redact-Alike (array xs) (array ys) h = redact_items-AlikeItems xs ys (cc h)
    redact-Alike (object fs) (object gs) h = redact_fields-AlikeFields fs gs (cc h)
    redact-Alike (array xs) w h = ground arith
    redact-Alike (object fs) w h = ground arith
    redact-Alike v (array ys) h = ground arith
    redact-Alike v (object gs) h = ground arith
    redact-Alike v w h = h

    redact_items-AlikeItems :
        (xs ys : Items F) → redact_items py xs ≡ redact_items py ys → AlikeItems xs ys
    redact_items-AlikeItems nil nil h = tt
    redact_items-AlikeItems (cons v xs) (cons w ys) h =
        (redact-Alike v w (cc h), redact_items-AlikeItems xs ys (cc h))
    redact_items-AlikeItems xs ys h = ground arith

    redact_fields-AlikeFields :
        (fs gs : Fields F) → redact_fields py fs ≡ redact_fields py gs → AlikeFields fs gs
    redact_fields-AlikeFields end end h = tt
    redact_fields-AlikeFields (field k v fs) (field l w gs) h =
        let key : k ≡ l = cc h in
        let others : redact_fields py fs ≡ redact_fields py gs = cc h in
        let one : (if is_secret py k then text "***" else redact py v)
            ≡ (if is_secret py k then text "***" else redact py w) =
          rw key (cc h) in
        (
          key,
          unmasked (is_secret py k) one (redact-Alike v w),
          redact_fields-AlikeFields fs gs others,
        )
    redact_fields-AlikeFields fs gs h = ground arith

  -- In a redacted value every secret key holds "***", at whatever depth. A value in which that is
  -- so is not changed. Two values are the same after redaction exactly if they differ at most in
  -- the values of secret keys.
  pub redact_lem :
      (v : Json F)
      → Hides (redact py v)
        × (Hides v → redact py v ≡ v)
        × ((w : Json F) → (redact py v ≡ redact py w) ↔ Alike v w)
  redact_lem v = (redact-Hides v, redact_of_Hides v, λ w. (redact-Alike v w, redact_of_Alike v w))
