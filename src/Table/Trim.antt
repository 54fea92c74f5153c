-- ===== src/Table/Trim.antt =====
-- What a trim leaves: at most `cap` rows of its kind, the newest ones, and every row of another kind.
use mathlib.Core.Path.{subst}
use itdashboard.Prelude.{
  ℕ, ◌-◌, ◌≤◌, ◌≡◌, refl, ap, sym, not, All-every, ◌∙◌, Bool, false, List, [], map, arith, All,
  length-select-le, All-select, length, take, drop, select, count, length-drop, take-append-drop,
}
use itdashboard.Table.{elem, delete_in, order_by, oldest_over, delete_oldest}
use itdashboard.Table.Order.{length-order_by}
use itdashboard.Table.Delete.{
  IsKeyed, IsKeyed-select, IsKeyed-order_by, order_by-delete_in, delete_in_absent, delete_in_prefix,
  length-delete_in-le, select-delete_in,
}

module _ {ℓ} {A : Type ℓ} (id column : A → ℕ) (p : A → Bool) where
  -- Deleting the first `n` rows of a kind in order leaves the others in order.
  pub order_by-delete_head :
      (n : ℕ) (rows : List A)
      → IsKeyed id rows
      → order_by column
          (select p (delete_in id (map id (take n (order_by column (select p rows)))) rows))
        ≡ drop n (order_by column (select p rows))
  order_by-delete_head n rows h =
      let sorted = order_by column (select p rows) in
      let head = take n sorted in
      let keyed = IsKeyed-order_by id column (select p rows) (IsKeyed-select id p rows h) in
      ap (order_by column) (select-delete_in id p (map id head) rows)
      ∙ order_by-delete_in id column (map id head) (select p rows)
      ∙ ap (delete_in id (map id head)) (sym (take-append-drop n sorted))
      ∙ delete_in_prefix id head (drop n sorted) (rw (take-append-drop n sorted) keyed)

module _ {ℓ} {A : Type ℓ} (id column : A → ℕ) (p : A → Bool) (cap : ℕ) where
  -- How many rows are over the cap.
  abbrev pub excess : List A → ℕ
  excess rows = count p rows - cap

  -- The rows of the kind that a trim keeps, oldest first, are those that the excess leaves.
  pub order_by-delete_oldest :
      (rows : List A)
      → IsKeyed id rows
      → order_by column (select p (delete_oldest id column p cap rows))
        ≡ drop (excess rows) (order_by column (select p rows))
  unfolding delete_oldest oldest_over
  order_by-delete_oldest rows h = order_by-delete_head id column p (excess rows) rows h

  delete_sorted-le :
      (rows : List A)
      → length (
          delete_in id
            (map id (take (excess rows) (order_by column (select p rows))))
            (order_by column (select p rows)))
        ≤ cap
  delete_sorted-le rows =
      let sorted = order_by column (select p rows) in
      let split = take-append-drop (excess rows) sorted in
      let bound = length-delete_in-le id (take (excess rows) sorted) (drop (excess rows) sorted) in
      let bound' =
        subst
          (λ l.
            length (delete_in id (map id (take (excess rows) sorted)) l)
            ≤ length (drop (excess rows) sorted))
          split bound in
      omega
        (arith, bound', length-drop (excess rows) sorted, length-order_by column (select p rows))

  -- Never more than `cap` rows of the kind are left.
  pub count-delete_oldest-le : (rows : List A) → count p (delete_oldest id column p cap rows) ≤ cap
  unfolding delete_oldest oldest_over
  count-delete_oldest-le rows =
      let ids = oldest_over id column p cap rows in
      let moved = ap length (select-delete_in id p ids rows) in
      let sorted = length-order_by column (delete_in id ids (select p rows)) in
      let commute = ap length (order_by-delete_in id column ids (select p rows)) in
      omega (arith, moved, sorted, commute, delete_sorted-le rows)

  -- Under the cap nothing is deleted.
  pub delete_oldest_under :
      (rows : List A) → count p rows ≤ cap → delete_oldest id column p cap rows ≡ rows
  unfolding delete_oldest oldest_over elem
  delete_oldest_under rows h =
      let none_over : excess rows ≡ 0 = omega arith in
      rw none_over
        (delete_in_absent id [] rows (All-every (λ r. elem (id r) [] ≡ false) (λ r. refl) rows))

  pub IsKeyed-delete_oldest :
      (rows : List A) → IsKeyed id rows → IsKeyed id (delete_oldest id column p cap rows)
  unfolding delete_oldest delete_in
  IsKeyed-delete_oldest rows h =
      IsKeyed-select id (λ r. not (elem (id r) (oldest_over id column p cap rows))) rows h

  pub All-delete_oldest {κ} :
      (P : A → Type κ) (rows : List A) → All P rows → All P (delete_oldest id column p cap rows)
  unfolding delete_oldest delete_in
  All-delete_oldest P rows h =
      All-select P (λ r. not (elem (id r) (oldest_over id column p cap rows))) rows h

module _ {ℓ} {A : Type ℓ} (id : A → ℕ) where
  -- A deletion lowers every count.
  pub count-delete_in-le :
      (q : A → Bool) (ids : List ℕ) (rows : List A) → count q (delete_in id ids rows) ≤ count q rows
  unfolding delete_in
  count-delete_in-le q ids rows = omega (
    arith,
    ap length (select-delete_in id q ids rows),
    length-select-le (λ r. not (elem (id r) ids)) (select q rows),
  )

  pub count-delete_oldest_mono :
      (column : A → ℕ) (p q : A → Bool) (cap : ℕ) (rows : List A)
      → count q (delete_oldest id column p cap rows) ≤ count q rows
  unfolding delete_oldest
  count-delete_oldest_mono column p q cap rows =
      count-delete_in-le q (oldest_over id column p cap rows) rows
