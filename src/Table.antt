-- ===== src/Table.antt =====
-- The part of SQL that the edge agents use on their SQLite files, over a table as the list of its
-- rows in rowid order: `ORDER BY column ASC` (ties in rowid order), `WHERE id IN (…)`, and the
-- statement `DELETE … WHERE id IN (SELECT id … WHERE p ORDER BY column LIMIT MAX(0, count - cap))`.
pub mod Order
pub mod Delete
pub mod Trim
pub mod Others
pub mod Update
pub mod Rank
use itdashboard.Prelude.{
  ℕ, zero, suc, ◌-◌, Bool, true, false, not, ◌||◌, List, [], ◌∷◌, map, leb, ◌==◌, if◌then◌else◌,
  take, select, count,
}

unfoldable pub elem : ℕ → List ℕ → Bool
elem i [] = false
elem i (j ∷ js) = i == j || elem i js

module _ {ℓ} {A : Type ℓ} where
  pub insert_by : (A → ℕ) → A → List A → List A
  insert_by column r [] = r ∷ []
  insert_by column r (s ∷ rows) =
      let rest = insert_by column r rows in
      if leb (column r) (column s) then r ∷ s ∷ rows else s ∷ rest

  -- `ORDER BY column ASC`: an earlier row stands before a later one with the same value.
  unfoldable pub order_by : (A → ℕ) → List A → List A
  unfolding insert_by
  order_by column [] = []
  order_by column (r ∷ rows) = insert_by column r (order_by column rows)

  -- `DELETE FROM t WHERE id IN (ids)`
  unfoldable pub delete_in : (A → ℕ) → List ℕ → List A → List A
  unfolding elem
  delete_in id ids = select (λ r. not (elem (id r) ids))

  -- `UPDATE t SET … WHERE id IN (ids)`
  unfoldable pub update_in : (A → ℕ) → (A → A) → List ℕ → List A → List A
  unfolding elem
  update_in id f ids = map (λ r. if elem (id r) ids then f r else r)

  -- The ids that the inner SELECT of a trim returns; `-` stops at 0, as MAX(0, …) does.
  unfoldable pub oldest_over : (A → ℕ) → (A → ℕ) → (A → Bool) → ℕ → List A → List ℕ
  unfolding order_by
  oldest_over id column p cap rows =
      map id (take (count p rows - cap) (order_by column (select p rows)))

  unfoldable pub delete_oldest : (A → ℕ) → (A → ℕ) → (A → Bool) → ℕ → List A → List A
  unfolding oldest_over delete_in
  delete_oldest id column p cap rows = delete_in id (oldest_over id column p cap rows) rows
