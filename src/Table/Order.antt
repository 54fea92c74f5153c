-- ===== src/Table/Order.antt =====
-- ORDER BY: the rows come out in ascending order, are the rows that went in, and keep every filter.
use mathlib.Core.List.{Perm}
use mathlib.Core.List.Perm
use itdashboard.Prelude.{
  ℕ, suc, ◌≤◌, ◌≡◌, refl, ap, ◌∙◌, map, ◌++◌, Bool, inl, inr, List, [], ◌∷◌, arith, leb,
  if◌then◌else◌, All, All-imp, length, select, All-select, Bool-cases,
}
use itdashboard.Table.{order_by, insert_by}

module _ {ℓ} {A : Type ℓ} (column : A → ℕ) where
  -- Ascending in `column`.
  abbrev pub IsOrdered : List A → Type 0
  IsOrdered [] = Unit
  IsOrdered (r ∷ rows) = All (λ s. column r ≤ column s) rows × IsOrdered rows

  pub All-insert_by {κ} :
      (P : A → Type κ) (r : A) (rows : List A) → P r → All P rows → All P (insert_by column r rows)
  unfolding insert_by
  All-insert_by P r [] h k = (h, tt)
  All-insert_by P r (s ∷ rows) h k = elim (Bool-cases (leb (column r) (column s))) [
    | inl e ↦ rw e (h, k)
    | inr e ↦ rw e (k.0, All-insert_by P r rows h k.1)
  ]

  pub All-order_by {κ} :
      (P : A → Type κ) (rows : List A) → All P rows → All P (order_by column rows)
  unfolding order_by
  All-order_by P [] h = tt
  All-order_by P (r ∷ rows) h =
      All-insert_by P r (order_by column rows) h.0 (All-order_by P rows h.1)

  insert_by-IsOrdered :
      (r : A) (rows : List A) → IsOrdered rows → IsOrdered (insert_by column r rows)
  unfolding insert_by
  insert_by-IsOrdered r [] h = (tt, tt)
  insert_by-IsOrdered r (s ∷ rows) h = elim (Bool-cases (leb (column r) (column s))) [
    | inl e ↦
        let r-le-s : column r ≤ column s = ground arith in
        rw e (
          (
            r-le-s,
            All-imp (λ t. column s ≤ column t) (λ t. column r ≤ column t) (λ t k. omega arith) rows
                h.0,
          ),
          h,
        )
    | inr e ↦ rw e (
      All-insert_by (λ t. column s ≤ column t) r rows (ground arith) h.0,
      insert_by-IsOrdered r rows h.1,
    )
  ]

  pub order_by-IsOrdered : (rows : List A) → IsOrdered (order_by column rows)
  unfolding order_by
  order_by-IsOrdered [] = tt
  order_by-IsOrdered (r ∷ rows) =
      insert_by-IsOrdered r (order_by column rows) (order_by-IsOrdered rows)

  length-insert_by : (r : A) (rows : List A) → length (insert_by column r rows) ≡ suc (length rows)
  unfolding insert_by
  length-insert_by r [] = refl
  length-insert_by r (s ∷ rows) = ground (arith, length-insert_by r rows)

  pub length-order_by : (rows : List A) → length (order_by column rows) ≡ length rows
  unfolding order_by
  length-order_by [] = refl
  length-order_by (r ∷ rows) =
      omega (arith, length-insert_by r (order_by column rows), length-order_by rows)

  insert_by-perm : (r : A) (rows : List A) → Perm (insert_by column r rows) (r ∷ rows)
  unfolding insert_by
  insert_by-perm r [] = Perm.refl (r ∷ [])
  insert_by-perm r (s ∷ rows) = elim (Bool-cases (leb (column r) (column s))) [
    | inl e ↦ rw e (Perm.refl (r ∷ s ∷ rows))
    | inr e ↦ rw e (Perm.trans (Perm.cons s (insert_by-perm r rows)) (Perm.swap r s rows))
  ]

  pub order_by-perm : (rows : List A) → Perm (order_by column rows) rows
  unfolding order_by
  order_by-perm [] = Perm.refl []
  order_by-perm (r ∷ rows) =
      Perm.trans (insert_by-perm r (order_by column rows)) (Perm.cons r (order_by-perm rows))

  insert_by_first :
      (r : A) (rows : List A)
      → All (λ s. column r ≤ column s) rows
      → insert_by column r rows ≡ r ∷ rows
  unfolding insert_by
  insert_by_first r [] h = refl
  insert_by_first r (s ∷ rows) h = ground arith

  -- What is in order already is not moved.
  pub order_by_of_IsOrdered : (rows : List A) → IsOrdered rows → order_by column rows ≡ rows
  unfolding order_by
  order_by_of_IsOrdered [] h = refl
  order_by_of_IsOrdered (r ∷ rows) h =
      let rest = order_by_of_IsOrdered rows h.1 in rw rest (insert_by_first r rows h.0)

  -- ORDER BY and WHERE commute: the sort is stable.
  select-insert_by :
      (q : A → Bool) (r : A) (rows : List A)
      → IsOrdered rows
      → select q (insert_by column r rows)
        ≡ (if q r then insert_by column r (select q rows) else select q rows)
  unfolding insert_by
  select-insert_by q r [] h = ground arith
  select-insert_by q r (s ∷ rows) h = elim (Bool-cases (leb (column r) (column s))) [
    | inl e ↦
        let r-le-s : column r ≤ column s = ground arith in
        let above =
          All-imp (λ t. column s ≤ column t) (λ t. column r ≤ column t) (λ t k. omega arith) rows
            h.0 in
        let first =
          insert_by_first r (select q rows) (All-select (λ t. column r ≤ column t) q rows above) in
        ground (arith, first)
    | inr e ↦ ground (arith, select-insert_by q r rows h.1)
  ]

  pub order_by-select :
      (q : A → Bool) (rows : List A)
      → order_by column (select q rows) ≡ select q (order_by column rows)
  unfolding order_by
  order_by-select q [] = refl
  order_by-select q (r ∷ rows) = ground (
    arith,
    order_by-select q rows,
    select-insert_by q r (order_by column rows) (order_by-IsOrdered rows),
  )

  insert_by-snoc :
      (r last : A) (rows : List A)
      → column r ≤ column last
      → insert_by column r (rows ++ last ∷ []) ≡ insert_by column r rows ++ last ∷ []
  unfolding insert_by
  insert_by-snoc r last [] h = ground arith
  insert_by-snoc r last (s ∷ rows) h = ground (arith, insert_by-snoc r last rows)

  -- The youngest row comes last.
  pub order_by-snoc :
      (rows : List A) (last : A)
      → All (λ s. column s ≤ column last) rows
      → order_by column (rows ++ last ∷ []) ≡ order_by column rows ++ last ∷ []
  unfolding order_by insert_by
  order_by-snoc [] last h = refl
  order_by-snoc (r ∷ rows) last h =
      ap (insert_by column r) (order_by-snoc rows last h.1)
      ∙ insert_by-snoc r last (order_by column rows) h.0

  insert_by-map :
      (f : A → A) (r : A) (rows : List A)
      → ((s : A) → column (f s) ≡ column s)
      → insert_by column (f r) (map f rows) ≡ map f (insert_by column r rows)
  unfolding insert_by
  insert_by-map f r [] same = refl
  insert_by-map f r (s ∷ rows) same = ground (arith, same r, same s, insert_by-map f r rows same)

  -- A change of other columns does not change the order.
  pub order_by-map :
      (f : A → A) (rows : List A)
      → ((s : A) → column (f s) ≡ column s)
      → order_by column (map f rows) ≡ map f (order_by column rows)
  unfolding order_by
  order_by-map f [] same = refl
  order_by-map f (r ∷ rows) same =
      ap (insert_by column (f r)) (order_by-map f rows same)
      ∙ insert_by-map f r (order_by column rows) same
