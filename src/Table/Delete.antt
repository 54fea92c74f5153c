-- ===== src/Table/Delete.antt =====
-- DELETE and UPDATE by a list of ids.
use itdashboard.Prelude.{
  ℕ, ◌≤◌, ◌≡◌, ◌≢◌, refl, Bool, true, false, not, inl, inr, List, [], ◌∷◌, ◌++◌, map, arith, All,
  All-imp, All-every, All-both, All-right, All-select, sym, leb, length-select-le, length, select,
  select_all, select_none, select_comm, select-append, Bool-cases,
}
use itdashboard.Table.{elem, delete_in, order_by, insert_by}
use itdashboard.Table.Order.{order_by-select, All-order_by, All-insert_by}

-- No two rows have one key: what PRIMARY KEY promises.
abbrev pub IsKeyed {ℓ κ} : {A : Type ℓ} {K : Type κ} → (A → K) → List A → Type κ
IsKeyed id [] = Unit
IsKeyed id (r ∷ rows) = All (λ s. id s ≢ id r) rows × IsKeyed id rows

module _ {ℓ} {A : Type ℓ} (id : A → ℕ) where
  listed : (xs : List A) → All (λ x. elem (id x) (map id xs) ≡ true) xs
  unfolding elem
  listed [] = tt
  listed (x ∷ xs) = (
    ground arith,
    All-imp (λ y. elem (id y) (map id xs) ≡ true) (λ y. elem (id y) (map id (x ∷ xs)) ≡ true)
        (λ y h. ground arith) xs (listed xs),
  )

  not_listed :
      (xs ys : List A) → IsKeyed id (xs ++ ys) → All (λ y. elem (id y) (map id xs) ≡ false) ys
  unfolding elem
  not_listed [] ys h = All-every (λ y. elem (id y) [] ≡ false) (λ y. refl) ys
  not_listed (x ∷ xs) ys h =
      All-imp (λ y. (id y ≢ id x) × (elem (id y) (map id xs) ≡ false))
        (λ y. elem (id y) (map id (x ∷ xs)) ≡ false) (λ y k. ground arith) ys
        (All-both (λ y. id y ≢ id x) (λ y. elem (id y) (map id xs) ≡ false) ys
          (All-right (λ y. id y ≢ id x) xs ys h.0) (not_listed xs ys h.1))

  -- Rows whose ids are listed go, and the rows behind them stay.
  pub delete_in_self : (xs : List A) → delete_in id (map id xs) xs ≡ []
  unfolding delete_in
  delete_in_self xs =
      select_none (λ r. not (elem (id r) (map id xs))) xs
        (All-imp (λ y. elem (id y) (map id xs) ≡ true) (λ y. not (elem (id y) (map id xs)) ≡ false)
          (λ y h. rw h) xs (listed xs))

  pub delete_in_absent :
      (ids : List ℕ) (ys : List A)
      → All (λ y. elem (id y) ids ≡ false) ys
      → delete_in id ids ys ≡ ys
  unfolding delete_in
  delete_in_absent ids ys h =
      select_all (λ r. not (elem (id r) ids)) ys
        (All-imp (λ y. elem (id y) ids ≡ false) (λ y. not (elem (id y) ids) ≡ true) (λ y k. rw k) ys
          h)

  pub delete_in-append :
      (ids : List ℕ) (xs ys : List A)
      → delete_in id ids (xs ++ ys) ≡ delete_in id ids xs ++ delete_in id ids ys
  unfolding delete_in
  delete_in-append ids xs ys = select-append (λ r. not (elem (id r) ids)) xs ys

  pub delete_in_prefix :
      (xs ys : List A) → IsKeyed id (xs ++ ys) → delete_in id (map id xs) (xs ++ ys) ≡ ys
  delete_in_prefix xs ys h =
      rw (delete_in-append (map id xs) xs ys, delete_in_self xs)
        (delete_in_absent (map id xs) ys (not_listed xs ys h))

  pub length-delete_in-le :
      (xs ys : List A) → length (delete_in id (map id xs) (xs ++ ys)) ≤ length ys
  unfolding delete_in
  length-delete_in-le xs ys =
      rw (delete_in-append (map id xs) xs ys, delete_in_self xs)
        (length-select-le (λ r. not (elem (id r) (map id xs))) ys)

  pub select-delete_in :
      (q : A → Bool) (ids : List ℕ) (rows : List A)
      → select q (delete_in id ids rows) ≡ delete_in id ids (select q rows)
  unfolding delete_in
  select-delete_in q ids rows = select_comm q (λ r. not (elem (id r) ids)) rows

  All_ne-insert_by :
      (column : A → ℕ) (r : A) (rows : List A)
      → All (λ s. id s ≢ id r) rows
      → IsKeyed id rows
      → IsKeyed id (insert_by column r rows)
  unfolding insert_by
  All_ne-insert_by column r [] h k = (tt, tt)
  All_ne-insert_by column r (s ∷ rows) h k = elim (Bool-cases (leb (column r) (column s))) [
    | inl e ↦ rw e (h, k)
    | inr e ↦ rw e (
      All-insert_by column (λ t. id t ≢ id s) r rows (λ p. h.0 (sym p)) k.0,
      All_ne-insert_by column r rows h.1 k.1,
    )
  ]

  pub IsKeyed-order_by :
      (column : A → ℕ) (rows : List A) → IsKeyed id rows → IsKeyed id (order_by column rows)
  unfolding order_by
  IsKeyed-order_by column [] h = tt
  IsKeyed-order_by column (r ∷ rows) h =
      All_ne-insert_by column r (order_by column rows)
        (All-order_by column (λ s. id s ≢ id r) rows h.0) (IsKeyed-order_by column rows h.1)

  pub IsKeyed-select : (p : A → Bool) (rows : List A) → IsKeyed id rows → IsKeyed id (select p rows)
  IsKeyed-select p [] h = tt
  IsKeyed-select p (r ∷ rows) h = elim (Bool-cases (p r)) [
    | inl e ↦ rw e (All-select (λ s. id s ≢ id r) p rows h.0, IsKeyed-select p rows h.1)
    | inr e ↦ rw e (IsKeyed-select p rows h.1)
  ]

  pub order_by-delete_in :
      (column : A → ℕ) (ids : List ℕ) (rows : List A)
      → order_by column (delete_in id ids rows) ≡ delete_in id ids (order_by column rows)
  unfolding delete_in
  order_by-delete_in column ids rows = order_by-select column (λ r. not (elem (id r) ids)) rows
