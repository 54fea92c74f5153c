-- ===== src/Table/Rank/Weak.antt =====
-- ORDER BY columns in which rows may tie: what comes out is the rows that went in, and no row stands
-- behind one that it should precede.
use mathlib.Core.List.{Perm}
use mathlib.Core.List.Perm
use itdashboard.Prelude.{
  ℕ, ◌+◌, ◌≡◌, refl, Bool, true, false, inl, inr, List, [], ◌∷◌, map, arith, All, All-imp,
  Bool-cases, sum_by,
}
use itdashboard.Table.Rank.{place, rank_by}

-- A strict order in which rows may tie.
pub record IsWeak {ℓ} {A : Type ℓ} (before : A → A → Bool) : Type ℓ where
  pub asymmetric : (a b : A) → before a b ≡ true → before b a ≡ false
  pub negative : (a b c : A) → before b a ≡ false → before c b ≡ false → before c a ≡ false

module _ {ℓ} {A : Type ℓ} (before : A → A → Bool) where
  -- No row stands behind one that it should precede.
  abbrev pub IsSorted : List A → Type 0
  IsSorted [] = Unit
  IsSorted (r ∷ rows) = All (λ s. before s r ≡ false) rows × IsSorted rows

  All-place {μ} :
      (P : A → Type μ) (r : A) (rows : List A) → P r → All P rows → All P (place before r rows)
  unfolding place
  All-place P r [] h k = (h, tt)
  All-place P r (s ∷ rows) h k = elim (Bool-cases (before s r)) [
    | inl e ↦ rw e (k.0, All-place P r rows h k.1)
    | inr e ↦ rw e (h, k)
  ]

  pub All-rank_by {μ} : (P : A → Type μ) (rows : List A) → All P rows → All P (rank_by before rows)
  unfolding rank_by
  All-rank_by P [] h = tt
  All-rank_by P (r ∷ rows) h = All-place P r (rank_by before rows) h.0 (All-rank_by P rows h.1)

  place-IsSorted :
      IsWeak before → (r : A) (rows : List A) → IsSorted rows → IsSorted (place before r rows)
  unfolding place
  place-IsSorted weak r [] h = (tt, tt)
  place-IsSorted weak r (s ∷ rows) h = elim (Bool-cases (before s r)) [
    | inl e ↦ rw e (
      All-place (λ t. before t s ≡ false) r rows (weak.asymmetric s r e) h.0,
      place-IsSorted weak r rows h.1,
    )
    | inr e ↦ rw e (
      (
        e,
        All-imp (λ t. before t s ≡ false) (λ t. before t r ≡ false) (λ t k. weak.negative r s t e k)
            rows h.0,
      ),
      h,
    )
  ]

  pub rank_by-IsSorted : IsWeak before → (rows : List A) → IsSorted (rank_by before rows)
  unfolding rank_by
  rank_by-IsSorted weak [] = tt
  rank_by-IsSorted weak (r ∷ rows) =
      place-IsSorted weak r (rank_by before rows) (rank_by-IsSorted weak rows)

  place-sum_by :
      (f : A → ℕ) (r : A) (rows : List A) → sum_by f (place before r rows) ≡ f r + sum_by f rows
  unfolding place
  place-sum_by f r [] = refl
  place-sum_by f r (s ∷ rows) = ground (arith, place-sum_by f r rows)

  pub rank_by-sum_by : (f : A → ℕ) (rows : List A) → sum_by f (rank_by before rows) ≡ sum_by f rows
  unfolding rank_by
  rank_by-sum_by f [] = refl
  rank_by-sum_by f (r ∷ rows) =
      omega (arith, place-sum_by f r (rank_by before rows), rank_by-sum_by f rows)

  place-perm {κ} :
      {B : Type κ} (f : A → B) (r : A) (rows : List A)
      → Perm (map f (place before r rows)) (f r ∷ map f rows)
  unfolding place
  place-perm f r [] = Perm.refl (f r ∷ [])
  place-perm f r (s ∷ rows) = elim (Bool-cases (before s r)) [
    | inl e ↦
        rw e
          (Perm.trans (Perm.cons (f s) (place-perm f r rows)) (Perm.swap (f r) (f s) (map f rows)))
    | inr e ↦ rw e (Perm.refl (f r ∷ f s ∷ map f rows))
  ]

  pub rank_by-perm {κ} :
      {B : Type κ} (f : A → B) (rows : List A) → Perm (map f (rank_by before rows)) (map f rows)
  unfolding rank_by
  rank_by-perm f [] = Perm.refl []
  rank_by-perm f (r ∷ rows) =
      Perm.trans (place-perm f r (rank_by before rows)) (Perm.cons (f r) (rank_by-perm f rows))
