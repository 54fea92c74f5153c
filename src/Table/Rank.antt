-- ===== src/Table/Rank.antt =====
-- ORDER BY several columns, given as the test that a row stands before another one, and the rows
-- that stand behind a given one, which is what a cursor asks for.
pub mod Weak
use itdashboard.Prelude.{
  suc, length, ◌≡◌, ◌≢◌, refl, Bool, true, false, inl, inr, List, [], ◌∷◌, ◌++◌, arith,
  if◌then◌else◌, select, select_all, All, All-imp, All-select, Bool-cases,
}
use itdashboard.Table.Delete.{IsKeyed}

module _ {ℓ} {A : Type ℓ} (before : A → A → Bool) where
  pub place : A → List A → List A
  place r [] = r ∷ []
  place r (s ∷ rows) = let rest = place r rows in if before s r then s ∷ rest else r ∷ s ∷ rows

  unfoldable pub rank_by : List A → List A
  unfolding place
  rank_by [] = []
  rank_by (r ∷ rows) = place r (rank_by rows)

  abbrev pub IsRanked : List A → Type 0
  IsRanked [] = Unit
  IsRanked (r ∷ rows) = All (λ s. before r s ≡ true) rows × IsRanked rows

-- A strict order, total on rows with different keys.
pub record IsStrict {ℓ κ} {A : Type ℓ} {K : Type κ} (key : A → K) (before : A → A → Bool)
    : Type (ℓ ⊔ κ) where
  pub irreflexive : (a : A) → before a a ≡ false
  pub transitive : (a b c : A) → before a b ≡ true → before b c ≡ true → before a c ≡ true
  pub total : (a b : A) → before a b ≡ false → key a ≢ key b → before b a ≡ true

module _ {ℓ κ} {A : Type ℓ} {K : Type κ} (key : A → K) (before : A → A → Bool)
    (strict : IsStrict key before) where
  All-place {μ} :
      (P : A → Type μ) (r : A) (rows : List A) → P r → All P rows → All P (place before r rows)
  unfolding place
  All-place P r [] h k = (h, tt)
  All-place P r (s ∷ rows) h k = elim (Bool-cases (before s r)) [
    | inl e ↦ rw e (k.0, All-place P r rows h k.1)
    | inr e ↦ rw e (h, k)
  ]

  All-rank_by {μ} : (P : A → Type μ) (rows : List A) → All P rows → All P (rank_by before rows)
  unfolding rank_by
  All-rank_by P [] h = tt
  All-rank_by P (r ∷ rows) h = All-place P r (rank_by before rows) h.0 (All-rank_by P rows h.1)

  place-IsRanked :
      (r : A) (rows : List A)
      → All (λ s. key s ≢ key r) rows
      → IsRanked before rows
      → IsRanked before (place before r rows)
  unfolding place
  place-IsRanked r [] other h = (tt, tt)
  place-IsRanked r (s ∷ rows) other h = elim (Bool-cases (before s r)) [
    | inl e ↦
        rw e (All-place (λ t. before s t ≡ true) r rows e h.0, place-IsRanked r rows other.1 h.1)
    | inr e ↦
        let r_s : before r s ≡ true = strict.total s r e other.0 in
        rw e (
          (
            r_s,
            All-imp (λ t. before s t ≡ true) (λ t. before r t ≡ true)
                (λ t k. strict.transitive r s t r_s k) rows h.0,
          ),
          h,
        )
  ]

  pub rank_by-IsRanked : (rows : List A) → IsKeyed key rows → IsRanked before (rank_by before rows)
  unfolding rank_by
  rank_by-IsRanked [] h = tt
  rank_by-IsRanked (r ∷ rows) h =
      place-IsRanked r (rank_by before rows) (All-rank_by (λ s. key s ≢ key r) rows h.0)
        (rank_by-IsRanked rows h.1)

  place_first :
      (r : A) (rows : List A) → All (λ s. before s r ≡ false) rows → place before r rows ≡ r ∷ rows
  unfolding place
  place_first r [] h = refl
  place_first r (s ∷ rows) h = rw h.0 refl

  select-place :
      (q : A → Bool) (r : A) (rows : List A)
      → IsRanked before rows
      → select q (place before r rows)
        ≡ (if q r then place before r (select q rows) else select q rows)
  unfolding place
  select-place q r [] h = ground arith
  select-place q r (s ∷ rows) h = elim (Bool-cases (before s r)) [
    | inl e ↦ ground (arith, select-place q r rows h.1)
    | inr e ↦
        let ahead : (t : A) → before s t ≡ true → before t r ≡ false = λ t k.
          elim (Bool-cases (before t r)) [
            | inl b ↦ cc (e, strict.transitive s t r k b)
            | inr b ↦ b
          ] in
        let later = All-imp (λ t. before s t ≡ true) (λ t. before t r ≡ false) ahead rows h.0 in
        let first =
          place_first r (select q rows) (All-select (λ t. before t r ≡ false) q rows later) in
        ground (arith, first)
  ]

  pub rank_by-select :
      (q : A → Bool) (rows : List A)
      → IsKeyed key rows
      → rank_by before (select q rows) ≡ select q (rank_by before rows)
  unfolding rank_by
  rank_by-select q [] h = refl
  rank_by-select q (r ∷ rows) h =
      let rest = rank_by-select q rows h.1 in
      let placed = select-place q r (rank_by before rows) (rank_by-IsRanked rows h.1) in
      ground (arith, rest, placed)

  -- What stands behind a row of a ranking is its tail.
  pub select_behind :
      (front : List A) (r : A) (rest : List A)
      → IsRanked before (front ++ r ∷ rest)
      → select (before r) (front ++ r ∷ rest) ≡ rest
  select_behind [] r rest h = rw (strict.irreflexive r) (select_all (before r) rest h.0)
  select_behind (s ∷ front) r rest h =
      let s_r : before s r ≡ true = middle front h.0 in
      let not_s : before r s ≡ false = elim (Bool-cases (before r s)) [
        | inl b ↦ cc (strict.irreflexive r, strict.transitive r s r b s_r)
        | inr b ↦ b
      ] in
      rw not_s (select_behind front r rest h.1)
    where
      middle :
          (front : List A) → All (λ t. before s t ≡ true) (front ++ r ∷ rest) → before s r ≡ true
      middle [] k = k.0
      middle (t ∷ front) k = middle front k.1

module _ {ℓ} {A : Type ℓ} (before : A → A → Bool) where
  length-place : (r : A) (rows : List A) → length (place before r rows) ≡ suc (length rows)
  unfolding place
  length-place r [] = refl
  length-place r (s ∷ rows) = ground (arith, length-place r rows)

  pub length-rank_by : (rows : List A) → length (rank_by before rows) ≡ length rows
  unfolding rank_by
  length-rank_by [] = refl
  length-rank_by (r ∷ rows) =
      omega (arith, length-place r (rank_by before rows), length-rank_by rows)
