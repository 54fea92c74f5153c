-- ===== src/Backend/Pages/Traversal.antt =====
-- Page after page, a client reads every matching alert once, in the order of the listing.
use itdashboard.Prelude.{
  ℕ, zero, suc, ◌≤◌, ◌<◌, ◌≡◌, ◌≢◌, refl, sym, ap, ◌∙◌, String, Bool, true, false, ◌&&◌, inl, inr,
  Option, none, some, List, [], ◌∷◌, ◌++◌, arith, str_eq, ltb, take, drop, length, length-take,
  length-drop, length-select-le, take-append-drop, select, select_all, All-every, Bool-cases,
}
use mathlib.Core.Path.{subst}
use mathlib.Core.List.{append_assoc}
use itdashboard.Table.Delete.{IsKeyed}
use itdashboard.Table.Rank.{
  rank_by, IsRanked, IsStrict, rank_by-IsRanked, rank_by-select, select_behind, length-rank_by,
}
use itdashboard.Backend.Database.{AlertState, Alert}
use itdashboard.Backend.Database.Keys.{select-IsKeyed}
use itdashboard.Backend.Alerts.Open.{alert_key}
use itdashboard.Backend.Pages.{
  Key, key_of, Codec, behind, before, after, last_of, cursor_of, page_of, page, list,
  list_by_property, any_state, read_all,
}

-- What the database's comparison of ids has to be.
pub record IsOrder (below : String → String → Bool) : Type 0 where
  pub irreflexive : (a : String) → below a a ≡ false
  pub transitive : (a b c : String) → below a b ≡ true → below b c ≡ true → below a c ≡ true
  pub total : (a b : String) → below a b ≡ false → a ≢ b → below b a ≡ true

before-IsStrict :
    (below : String → String → Bool) → IsOrder below → IsStrict alert_key (before below)
before-IsStrict below o = record {
  irreflexive = λ a. ground (arith, o.irreflexive a.alert_id);
  transitive = λ a b c h k. ground (arith, o.transitive c.alert_id b.alert_id a.alert_id);
  total = λ a b h k.
      let ids : below b.alert_id a.alert_id ≡ false → below a.alert_id b.alert_id ≡ true =
        λ f. o.total b.alert_id a.alert_id f (λ e. k (sym e)) in
      ground (arith, ids);
}

-- A list that is not empty ends with its last element.
ends_with :
    (r : Alert) (rows : List Alert)
    → (front : List Alert) × (c : Alert) × (r ∷ rows ≡ front ++ c ∷ [])
      × (last_of (r ∷ rows) ≡ some c)
ends_with r [] = ([], r, refl, refl)
ends_with r (s ∷ rows) = let (front, c, e, l) = ends_with s rows in (r ∷ front, c, ap (◌∷◌ r) e, l)

take-take : (n : ℕ) (rows : List Alert) → take n (take (suc n) rows) ≡ take n rows
take-take zero rows = refl
take-take (suc n) [] = refl
take-take (suc n) (r ∷ rows) = ap (◌∷◌ r) (take-take n rows)

take_all : (n : ℕ) (rows : List Alert) → length rows ≤ n → take n rows ≡ rows
take_all zero [] h = refl
take_all zero (r ∷ rows) h = absurd (omega arith)
take_all (suc n) [] h = refl
take_all (suc n) (r ∷ rows) h = ap (◌∷◌ r) (take_all n rows (omega arith))

select_and :
    (p q : Alert → Bool) (rows : List Alert)
    → select (λ r. p r && q r) rows ≡ select q (select p rows)
select_and p q [] = refl
select_and p q (r ∷ rows) = ground (arith, select_and p q rows)

module _ (below : String → String → Bool) (order : IsOrder below) where
  module _ {ℓ} {Cursor : Type ℓ} (codec : Codec Cursor) (matches : Alert → Bool) (rows : List Alert)
      (keyed : IsKeyed alert_key rows) where
    abbrev listing : List Alert
    listing = rank_by (before below) (select matches rows)

    listing-IsRanked : IsRanked (before below) listing
    listing-IsRanked =
        rank_by-IsRanked alert_key (before below) (before-IsStrict below order)
          (select matches rows) (select-IsKeyed alert_key matches rows keyed)

    -- A page shows the beginning of what is behind the cursor.
    page_lem :
        (limit : ℕ) (cursor : Option Cursor)
        → page below codec matches limit cursor rows
          ≡ page_of codec limit (take (suc limit) (select (after below codec cursor) listing))
    unfolding page
    page_lem limit cursor =
        let split = select_and matches (after below codec cursor) rows in
        let sorted =
          rank_by-select alert_key (before below) (before-IsStrict below order)
            (after below codec cursor) (select matches rows)
            (select-IsKeyed alert_key matches rows keyed) in
        rw (split, sorted) refl

    -- The rows behind the last one of a page.
    next_lem :
        (limit : ℕ) (front rest : List Alert)
        → listing ≡ front ++ rest
        → limit < length rest
        → 1 ≤ limit
        → (front' : List Alert) × (listing ≡ front' ++ drop limit rest)
          × (select (after below codec (cursor_of codec (last_of (take limit rest)))) listing
              ≡ drop limit rest)
    next_lem zero front rest h more some_rows = absurd (omega arith)
    next_lem (suc n) front [] h more some_rows = absurd (omega arith)
    next_lem (suc n) front (r ∷ rest) h more some_rows =
        let (init, c, e, l) = ends_with r (take n rest) in
        let tail = drop n rest in
        let whole : listing ≡ (front ++ init) ++ c ∷ tail =
          h
          ∙ ap (◌++◌ front) (
              sym (take-append-drop (suc n) (r ∷ rest))
              ∙ ap (λ (x : List Alert). x ++ tail) e
              ∙ append_assoc init (c ∷ []) tail)
          ∙ sym (append_assoc front init (c ∷ tail)) in
        let ranked : IsRanked (before below) ((front ++ init) ++ c ∷ tail) =
          subst (IsRanked (before below)) whole listing-IsRanked in
        (
          (front ++ init) ++ c ∷ [],
          whole ∙ sym (append_assoc (front ++ init) (c ∷ []) tail),
          rw l (
              ap (λ (k : Key). select (behind below k) listing) (codec.decode-encode (key_of c))
              ∙ rw whole (
                  select_behind alert_key (before below) (before-IsStrict below order)
                    (front ++ init) c tail ranked)),
        )

    page_of-more :
        (limit : ℕ) (rest : List Alert)
        → limit < length rest
        → page_of codec limit (take (suc limit) rest) ≡ record {
          items = take limit rest;
          next_cursor = cursor_of codec (last_of (take limit rest));
          has_more = true;
        }
    page_of-more limit rest more =
        let full : ltb limit (length (take (suc limit) rest)) ≡ true =
          ground (arith, length-take (suc limit) rest) in
        rw (full, take-take limit rest) refl

    page_of-last :
        (limit : ℕ) (rest : List Alert)
        → length rest ≤ limit
        → page_of codec limit (take (suc limit) rest)
          ≡ record { items = rest; next_cursor = none; has_more = false }
    page_of-last limit rest last =
        let short : ltb limit (length (take (suc limit) rest)) ≡ false =
          ground (arith, length-take (suc limit) rest) in
        rw (short, take-take limit rest, take_all limit rest last) refl

    read_from :
        (limit fuel : ℕ) (cursor : Option Cursor) (front rest : List Alert)
        → 1 ≤ limit
        → listing ≡ front ++ rest
        → select (after below codec cursor) listing ≡ rest
        → length rest < fuel
        → read_all (λ c. page below codec matches limit c rows) fuel cursor ≡ some rest
    unfolding read_all
    read_from limit zero cursor front rest some_rows h s enough = absurd (omega arith)
    read_from limit (suc fuel) cursor front rest some_rows h s enough =
        let shown =
          page_lem limit cursor
          ∙ ap (λ (l : List Alert). page_of codec limit (take (suc limit) l)) s in
        elim (Bool-cases (ltb limit (length rest))) [
          | inl e ↦
              let (front', h', s') = next_lem limit front rest h (ground arith) some_rows in
              let fewer : length (drop limit rest) < fuel =
                ground (arith, length-drop limit rest) in
              let later =
                read_from limit fuel (cursor_of codec (last_of (take limit rest))) front'
                  (drop limit rest) some_rows h' s' fewer in
              rw (shown ∙ page_of-more limit rest (ground arith), later)
                (ap some (take-append-drop limit rest))
          | inr e ↦ rw (shown ∙ page_of-last limit rest (ground arith)) refl
        ]

    read_all_lem :
        (limit fuel : ℕ)
        → 1 ≤ limit
        → length rows < fuel
        → read_all (λ c. page below codec matches limit c rows) fuel none ≡ some listing
    read_all_lem limit fuel some_rows enough =
        let fewer = length-rank_by (before below) (select matches rows) in
        let size = length-select-le matches rows in
        read_from limit fuel none [] listing some_rows refl
          (select_all (after below codec none) listing
            (All-every (λ r. true ≡ true) (λ r. refl) listing))
          (omega (arith, fewer, size))

abbrev pub order_of : (String → String → Bool) → (Alert → Bool) → List Alert → List Alert
order_of below matches rows = rank_by (before below) (select matches rows)

module _ {ℓ} {Cursor : Type ℓ} (below : String → String → Bool) (codec : Codec Cursor) where
  -- Whatever strict order the ids have, and if no two alerts have one id, a client that reads
  -- either listing page after page, with at least one alert to a page and one request for each
  -- alert and one more, reads every matching alert once: worst severity first, then the youngest,
  -- then by id from the largest.
  pub list-read_all :
      (provider_id property_id : String) (states : List AlertState) (limit fuel : ℕ)
      (rows : List Alert)
      → IsOrder below
      → IsKeyed alert_key rows
      → 1 ≤ limit
      → length rows < fuel
      → (let of_provider : Alert → Bool =
            λ r. str_eq r.provider_id provider_id && any_state states r.state in
          let of_property : Alert → Bool = λ r.
            str_eq r.provider_id provider_id
            && str_eq r.property_id property_id
            && any_state states r.state in
          (read_all (λ c. list below codec provider_id states limit c rows) fuel none
            ≡ some (order_of below of_provider rows))
          × (read_all
                (λ c. list_by_property below codec provider_id property_id states limit c rows)
                fuel
                none
              ≡ some (order_of below of_property rows))
          × IsRanked (before below) (order_of below of_provider rows)
          × IsRanked (before below) (order_of below of_property rows))
  unfolding list list_by_property
  list-read_all provider_id property_id states limit fuel rows order keyed some_rows enough =
      let of_provider : Alert → Bool =
        λ r. str_eq r.provider_id provider_id && any_state states r.state in
      let of_property : Alert → Bool = λ r.
        str_eq r.provider_id provider_id
        && str_eq r.property_id property_id
        && any_state states r.state in
      (
        read_all_lem below order codec of_provider rows keyed limit fuel some_rows enough,
        read_all_lem below order codec of_property rows keyed limit fuel some_rows enough,
        listing-IsRanked below order codec of_provider rows keyed,
        listing-IsRanked below order codec of_property rows keyed,
      )
