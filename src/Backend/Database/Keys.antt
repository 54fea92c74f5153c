-- ===== src/Backend/Database/Keys.antt =====
-- What keeps the primary keys of a table distinct.
use itdashboard.Prelude.{
  ◌≡◌, ◌≢◌, sym, Bool, true, false, inl, inr, none, some, List, [], ◌∷◌, ◌++◌, arith, if◌then◌else◌,
  All, All-append, All-imp, All-both, refl, All-select, select, Bool-cases,
}
use itdashboard.Table.Delete.{IsKeyed}
use itdashboard.Backend.Database.{first_where, update_where}

module _ {ℓ κ} {A : Type ℓ} {K : Type κ} (key : A → K) where
  pub snoc-IsKeyed :
      (rows : List A) (r : A)
      → IsKeyed key rows
      → All (λ s. key s ≢ key r) rows
      → IsKeyed key (rows ++ r ∷ [])
  snoc-IsKeyed [] r k h = (tt, tt)
  snoc-IsKeyed (s ∷ rows) r k h = (
    All-append (λ t. key t ≢ key s) rows (r ∷ []) k.0 ((λ e. h.0 (sym e)), tt),
    snoc-IsKeyed rows r k.1 h.1,
  )

  All_key-update_where :
      (P : K → Type κ) (p : A → Bool) (f : A → A) (rows : List A)
      → ((s : A) → key (f s) ≡ key s)
      → All (λ s. P (key s)) rows
      → All (λ s. P (key s)) (update_where p f rows)
  unfolding update_where
  All_key-update_where P p f [] same h = tt
  All_key-update_where P p f (r ∷ rows) same h = elim (Bool-cases (p r)) [
    | inl e ↦ (rw (e, same r) h.0, All_key-update_where P p f rows same h.1)
    | inr e ↦ (rw e h.0, All_key-update_where P p f rows same h.1)
  ]

  pub select-IsKeyed :
      (p : A → Bool) (rows : List A) → IsKeyed key rows → IsKeyed key (select p rows)
  select-IsKeyed p [] h = tt
  select-IsKeyed p (r ∷ rows) h = elim (Bool-cases (p r)) [
    | inl e ↦ rw e (All-select (λ s. key s ≢ key r) p rows h.0, select-IsKeyed p rows h.1)
    | inr e ↦ rw e (select-IsKeyed p rows h.1)
  ]

  -- An UPDATE that leaves the key alone.
  pub update_where-IsKeyed :
      (p : A → Bool) (f : A → A) (rows : List A)
      → ((s : A) → key (f s) ≡ key s)
      → IsKeyed key rows
      → IsKeyed key (update_where p f rows)
  unfolding update_where
  update_where-IsKeyed p f [] same h = tt
  update_where-IsKeyed p f (r ∷ rows) same h =
      let rest = All_key-update_where (λ k. k ≢ key r) p f rows same h.0 in
      elim (Bool-cases (p r)) [
        | inl e ↦ (rw (e, same r) rest, update_where-IsKeyed p f rows same h.1)
        | inr e ↦ (rw e rest, update_where-IsKeyed p f rows same h.1)
      ]

module _ {ℓ} {A : Type ℓ} where
  pub first_where-none :
      (p : A → Bool) (rows : List A) → first_where p rows ≡ none → All (λ r. p r ≡ false) rows
  unfolding first_where
  first_where-none p [] h = tt
  first_where-none p (r ∷ rows) h = elim (Bool-cases (p r)) [
    | inl e ↦ ground arith
    | inr e ↦ (e, first_where-none p rows (ground arith))
  ]

  -- What is found passes the test.
  pub first_where_passes :
      (p : A → Bool) (rows : List A) (r : A) → first_where p rows ≡ some r → p r ≡ true
  unfolding first_where
  first_where_passes p [] r h = ground arith
  first_where_passes p (s ∷ rows) r h = elim (Bool-cases (p s)) [
    | inl e ↦ ground arith
    | inr e ↦ first_where_passes p rows r (ground arith)
  ]

  -- An UPDATE of the row that is looked up, which leaves the key alone.
  pub first_where-update_where :
      (p : A → Bool) (f : A → A) (rows : List A) (r : A)
      → ((s : A) → p (f s) ≡ p s)
      → first_where p rows ≡ some r
      → first_where p (update_where p f rows) ≡ some (f r)
  unfolding first_where update_where
  first_where-update_where p f [] r same h = ground arith
  first_where-update_where p f (s ∷ rows) r same h = elim (Bool-cases (p s)) [
    | inl e ↦ ground (arith, same s)
    | inr e ↦ ground (arith, first_where-update_where p f rows r same (ground arith))
  ]

  pub first_where-snoc :
      (p : A → Bool) (rows : List A) (r : A)
      → first_where p rows ≡ none
      → first_where p (rows ++ r ∷ []) ≡ (if p r then some r else none)
  unfolding first_where
  first_where-snoc p [] r h = ground arith
  first_where-snoc p (s ∷ rows) r h = ground (arith, first_where-snoc p rows r)

-- In a table of distinct keys, a row that may be asked for is the one that its key finds: `has r s`
-- is the test of `s` by the key of `r`.
module _ {ℓ κ μ} {A : Type ℓ} {K : Type κ} (key : A → K) (has : A → A → Bool) (C : A → Type μ)
    (own : (r : A) → C r → has r r ≡ true)
    (only : (r s : A) → C r → has r s ≡ true → key s ≡ key r) where
  IsFirst : List A → A → Type (ℓ ⊔ μ)
  IsFirst rows r = C r → first_where (has r) rows ≡ some r

  cons-IsFirst :
      (r : A) (rows : List A) (s : A) → key s ≢ key r → IsFirst rows s → IsFirst (r ∷ rows) s
  unfolding IsFirst first_where
  cons-IsFirst r rows s other h c =
      let differs : has s r ≡ false = elim (Bool-cases (has s r)) [
        | inl e ↦ absurd (other (sym (only s r c e)))
        | inr e ↦ e
      ] in
      rw differs (h c)

  pub first_where-own :
      (rows : List A) → IsKeyed key rows → All (λ r. C r → first_where (has r) rows ≡ some r) rows
  unfolding IsFirst first_where
  first_where-own [] keyed = tt
  first_where-own (r ∷ rows) keyed = (
    λ c. rw (own r c) refl,
    All-imp (λ s. (key s ≢ key r) × IsFirst rows s) (IsFirst (r ∷ rows))
        (λ s h. cons-IsFirst r rows s h.0 h.1) rows
        (All-both (λ s. key s ≢ key r) (IsFirst rows) rows keyed.0 (first_where-own rows keyed.1)),
  )
