-- ===== src/Text/Order.antt =====
-- Texts compared by their characters' numbers, as PostgreSQL's collation "C" does: a strict order.
use Prim.Native.Char.{Char, code}
use Prim.Native.Nat.{Ordering, compare as compare_ℕ}
use Prim.Native.String.{String, compare, then}
use Prim.Native.String.compare
use text.Mathlib.TextEquality.{codes_equal}
use text.Mathlib.TextPositions.{compare_refl, compare_self}
use itdashboard.Prelude.{ℕ, ◌≡◌, ◌≢◌, refl, ap, ◌∙◌, Bool, true, false, arith}

abbrev is_less : Ordering → Bool
is_less Ordering.lt = true
is_less Ordering.eq = false
is_less Ordering.gt = false

unfoldable pub below : String → String → Bool
below s t = is_less (compare s t)

pub below_irreflexive : (s : String) → below s s ≡ false
unfolding below
below_irreflexive s = ap is_less (compare_refl s)

-- The order of the first characters, and of the rest if they are the same.
abbrev first : Ordering → Bool → Bool
first Ordering.lt b = true
first Ordering.eq b = b
first Ordering.gt b = false

less-then : (o r : Ordering) → is_less (then o r) ≡ first o (is_less r)
less-then Ordering.lt r = refl
less-then Ordering.eq r = refl
less-then Ordering.gt r = refl

below-cons :
    (c d : Char) (s t : String)
    → below (String.◌∷◌ c s) (String.◌∷◌ d t) ≡ first (compare_ℕ (code c) (code d)) (below s t)
unfolding below
below-cons c d s t =
    ap is_less (compare.cons-cons c d s t) ∙ less-then (compare_ℕ (code c) (code d)) (compare s t)

nil-below : (c : Char) (s : String) → below String.[] (String.◌∷◌ c s) ≡ true
unfolding below
nil-below c s = ap is_less (compare.nil-cons c s)

nothing_below-nil : (s : String) → below s String.[] ≡ false
unfolding below
nothing_below-nil String.[] = ap is_less compare.nil-nil
nothing_below-nil (String.◌∷◌ c s) = ap is_less (compare.cons-nil c s)

pub below_transitive : (s t u : String) → below s t ≡ true → below t u ≡ true → below s u ≡ true
below_transitive s t String.[] h k = cc (nothing_below-nil t, k)
below_transitive s String.[] (String.◌∷◌ e u) h k = cc (nothing_below-nil s, h)
below_transitive String.[] (String.◌∷◌ d t) (String.◌∷◌ e u) h k = nil-below e u
below_transitive (String.◌∷◌ c s) (String.◌∷◌ d t) (String.◌∷◌ e u) h k =
    ground
      (arith, below-cons c d s t, below-cons d e t u, below-cons c e s u, below_transitive s t u)

pub below_total : (s t : String) → below s t ≡ false → s ≢ t → below t s ≡ true
below_total String.[] String.[] h ne = absurd (ne refl)
below_total String.[] (String.◌∷◌ d t) h ne = cc (nil-below d t, h)
below_total (String.◌∷◌ c s) String.[] h ne = nil-below c s
below_total (String.◌∷◌ c s) (String.◌∷◌ d t) h ne =
    let same : code c ≡ code d → c ≡ d =
      λ e. codes_equal c d (ap (λ (n : ℕ). compare_ℕ n (code d)) e ∙ compare_self (code d)) in
    let rest : code c ≡ code d → s ≢ t = λ e f. ne (λ i. String.◌∷◌ (same e i) (f i)) in
    let later : code c ≡ code d → below s t ≡ false → below t s ≡ true =
      λ e g. below_total s t g (rest e) in
    ground (arith, below-cons c d s t, below-cons d c t s, later)
