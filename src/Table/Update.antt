-- ===== src/Table/Update.antt =====
-- UPDATE … WHERE id IN (…): what a change that leaves the id alone keeps.
use itdashboard.Prelude.{
  ℕ, ◌≡◌, ◌≢◌, refl, Bool, false, inl, inr, List, [], ◌∷◌, arith, All, select, count, Bool-cases,
}
use itdashboard.Table.{elem, delete_in, update_in}
use itdashboard.Table.Delete.{IsKeyed}

module _ {ℓ} {A : Type ℓ} (id : A → ℕ) (f : A → A) (keeps : (r : A) → id (f r) ≡ id r) where
  All-update_in {κ} :
      (P : A → Type κ) (ids : List ℕ) (rows : List A)
      → ((r : A) → P r → P (f r))
      → All P rows
      → All P (update_in id f ids rows)
  unfolding update_in
  All-update_in P ids [] step h = tt
  All-update_in P ids (r ∷ rows) step h = elim (Bool-cases (elem (id r) ids)) [
    | inl e ↦ (rw e (step r h.0), All-update_in P ids rows step h.1)
    | inr e ↦ (rw e h.0, All-update_in P ids rows step h.1)
  ]

  pub All_id-update_in {κ} :
      (P : ℕ → Type κ) (ids : List ℕ) (rows : List A)
      → All (λ r. P (id r)) rows
      → All (λ r. P (id r)) (update_in id f ids rows)
  All_id-update_in P ids rows = All-update_in (λ r. P (id r)) ids rows (λ r h. rw (keeps r) h)

  pub IsKeyed-update_in :
      (ids : List ℕ) (rows : List A) → IsKeyed id rows → IsKeyed id (update_in id f ids rows)
  unfolding update_in
  IsKeyed-update_in ids [] h = tt
  IsKeyed-update_in ids (r ∷ rows) h =
      let rest = All_id-update_in (λ i. i ≢ id r) ids rows h.0 in
      elim (Bool-cases (elem (id r) ids)) [
        | inl e ↦ (rw (e, keeps r) rest, IsKeyed-update_in ids rows h.1)
        | inr e ↦ (rw e rest, IsKeyed-update_in ids rows h.1)
      ]

  pub count-update_in :
      (p : A → Bool) (ids : List ℕ) (rows : List A)
      → ((r : A) → p (f r) ≡ p r)
      → count p (update_in id f ids rows) ≡ count p rows
  unfolding update_in
  count-update_in p ids [] same = refl
  count-update_in p ids (r ∷ rows) same = ground (arith, same r, count-update_in p ids rows same)

module _ {ℓ} {A : Type ℓ} (id : A → ℕ) (f : A → A) (p : A → Bool) where
  -- An update that takes rows out of a kind is, for that kind, their deletion.
  pub select-update_in_out :
      (ids : List ℕ) (rows : List A)
      → ((r : A) → p (f r) ≡ false)
      → select p (update_in id f ids rows) ≡ select p (delete_in id ids rows)
  unfolding update_in delete_in
  select-update_in_out ids [] out = refl
  select-update_in_out ids (r ∷ rows) out = ground (arith, out r, select-update_in_out ids rows out)

  -- An update that leaves the kind of a row alone commutes with the filter.
  pub select-update_in :
      (ids : List ℕ) (rows : List A)
      → ((r : A) → p (f r) ≡ p r)
      → select p (update_in id f ids rows) ≡ update_in id f ids (select p rows)
  unfolding update_in
  select-update_in ids [] same = refl
  select-update_in ids (r ∷ rows) same = ground (arith, same r, select-update_in ids rows same)
