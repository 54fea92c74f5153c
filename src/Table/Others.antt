-- ===== src/Table/Others.antt =====
-- A trim of one kind leaves the rows of every other kind as they are.
use mathlib.Core.Path.{subst}
use itdashboard.Prelude.{
  ℕ, zero, suc, ◌-◌, ◌≡◌, ◌≢◌, refl, sym, ◌∙◌, Bool, true, false, inl, inr, List, [], ◌∷◌, map,
  arith, All, All-imp, All-both, All-select, take, select, count, Bool-cases,
}
use itdashboard.Table.{elem, insert_by, order_by, oldest_over, delete_oldest}
use itdashboard.Table.Delete.{IsKeyed, delete_in_absent, select-delete_in}

module _ {ℓ} {A : Type ℓ} (id column : A → ℕ) where
  elem-insert_by :
      (i : ℕ) (r : A) (rows : List A)
      → elem i (map id (insert_by column r rows)) ≡ elem i (map id (r ∷ rows))
  unfolding elem insert_by
  elem-insert_by i r [] = refl
  elem-insert_by i r (s ∷ rows) = ground (arith, elem-insert_by i r rows)

  elem-order_by :
      (i : ℕ) (rows : List A) → elem i (map id (order_by column rows)) ≡ elem i (map id rows)
  unfolding elem order_by
  elem-order_by i [] = refl
  elem-order_by i (r ∷ rows) =
      ground (arith, elem-insert_by i r (order_by column rows), elem-order_by i rows)

  elem-take :
      (i n : ℕ) (rows : List A)
      → elem i (map id rows) ≡ false
      → elem i (map id (take n rows)) ≡ false
  unfolding elem
  elem-take i zero rows h = refl
  elem-take i (suc n) [] h = refl
  elem-take i (suc n) (r ∷ rows) h = ground (arith, elem-take i n rows)

  elem_absent :
      (r : A) (rows : List A) → All (λ s. id s ≢ id r) rows → elem (id r) (map id rows) ≡ false
  unfolding elem
  elem_absent r [] h = refl
  elem_absent r (s ∷ rows) h = ground (arith, elem_absent r rows h.1)

  module _ (p q : A → Bool) (apart : (r : A) → q r ≡ true → p r ≡ false) where
    unlisted_by :
        {l l' : List A}
        → l ≡ l'
        → (rows : List A) → All (λ y. elem (id y) (map id l) ≡ false) (select q rows)
        → All (λ y. elem (id y) (map id l') ≡ false) (select q rows)
    unlisted_by e rows = subst (λ l. All (λ y. elem (id y) (map id l) ≡ false) (select q rows)) e

    apart_listed :
        (rows : List A)
        → IsKeyed id rows
        → All (λ y. elem (id y) (map id (select p rows)) ≡ false) (select q rows)
    unfolding elem
    apart_listed [] h = tt
    apart_listed (r ∷ rows) h = elim (Bool-cases (q r)) [
      | inl e ↦
          let same : select p (r ∷ rows) ≡ select p rows = ground (arith, apart r e) in
          unlisted_by (sym same) (r ∷ rows) (
            rw e (
              elem_absent r (select p rows) (All-select (λ s. id s ≢ id r) p rows h.0),
              apart_listed rows h.1,
            ))
      | inr e ↦ elim (Bool-cases (p r)) [
        | inl f ↦
            let same : select p (r ∷ rows) ≡ r ∷ select p rows = ground arith in
            unlisted_by (sym same) (r ∷ rows) (
              rw e (
                All-imp (λ y. (id y ≢ id r) × (elem (id y) (map id (select p rows)) ≡ false))
                  (λ y. elem (id y) (map id (r ∷ select p rows)) ≡ false) (λ y k. ground arith)
                  (select q rows)
                  (All-both (λ y. id y ≢ id r) (λ y. elem (id y) (map id (select p rows)) ≡ false)
                    (select q rows) (All-select (λ s. id s ≢ id r) q rows h.0)
                    (apart_listed rows h.1))))
        | inr f ↦
            let same : select p (r ∷ rows) ≡ select p rows = ground arith in
            unlisted_by (sym same) (r ∷ rows) (rw e (apart_listed rows h.1))
      ]
    ]

    pub select-delete_oldest_apart :
        (cap : ℕ) (rows : List A)
        → IsKeyed id rows
        → select q (delete_oldest id column p cap rows) ≡ select q rows
    unfolding delete_oldest oldest_over
    select-delete_oldest_apart cap rows h =
        let l = select p rows in
        let ids = map id (take (count p rows - cap) (order_by column l)) in
        select-delete_in id q ids rows
        ∙ delete_in_absent id ids (select q rows) (
            All-imp (λ y. elem (id y) (map id l) ≡ false) (λ y. elem (id y) ids ≡ false)
              (λ y k.
                elem-take (id y) (count p rows - cap) (order_by column l)
                  (elem-order_by (id y) l ∙ k))
              (select q rows) (apart_listed rows h))
