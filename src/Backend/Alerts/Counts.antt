-- ===== src/Backend/Alerts/Counts.antt =====
-- `count_by_severity` and `worst_open` of backend/app/repositories/alerts.py agree.
use mathlib.Core.Path.{subst}
use itdashboard.Prelude.{
  ℕ, ◌≤◌, ◌<◌, ◌≡◌, refl, sym, ap, ◌∙◌, String, Bool, true, false, ◌&&◌, ◌||◌, inl, inr, Option,
  none, some, List, [], ◌∷◌, arith, str_eq, ltb, ◌==◌, if◌then◌else◌, count, select, Bool-cases,
  Option-cases,
}
use itdashboard.Text.{truthy}
use itdashboard.Backend.Database.{Severity, p1, p2, p3, p4, is_open, Alert}
use itdashboard.Backend.Pages.{sev_rank}

abbrev pub sev_eq : Severity → Severity → Bool
sev_eq p1 p1 = true
sev_eq p2 p2 = true
sev_eq p3 p3 = true
sev_eq p4 p4 = true
sev_eq _ _ = false

-- `provider_id=$1 AND property_id=$2 AND state IN (…)`; an empty property is none.
abbrev pub counted_property : Option String → Alert → Bool
counted_property none r = true
counted_property (some property_id) r =
    if truthy property_id then str_eq r.property_id property_id else true

abbrev pub is_counted : String → Option String → Alert → Bool
is_counted provider_id property_id r =
    str_eq r.provider_id provider_id && counted_property property_id r && is_open r.state

unfoldable pub count_by_severity : String → Option String → List Alert → Severity → ℕ
count_by_severity provider_id property_id rows s =
    count (λ r. is_counted provider_id property_id r && sev_eq r.severity s) rows

-- The first row by `ORDER BY rank ASC, opened_at DESC LIMIT 1`.
abbrev pub worse : Alert → Alert → Bool
worse s r =
    ltb (sev_rank s.severity) (sev_rank r.severity)
    || (sev_rank s.severity == sev_rank r.severity && ltb r.opened_at s.opened_at)

unfoldable pub worst_of : List Alert → Option Alert
worst_of [] = none
worst_of (r ∷ rows) = elim (worst_of rows) [
  | none ↦ some r
  | some s ↦ if worse s r then some s else some r
]

abbrev pub is_worst_candidate : String → String → Alert → Bool
is_worst_candidate provider_id property_id r =
    str_eq r.provider_id provider_id && str_eq r.property_id property_id && is_open r.state

unfoldable pub worst_open : String → String → List Alert → Option Alert
unfolding worst_of
worst_open provider_id property_id rows =
    worst_of (select (is_worst_candidate provider_id property_id) rows)

abbrev having : Severity → List Alert → ℕ
having s l = count (λ r. sev_eq r.severity s) l

having-select :
    (p : Alert → Bool) (s : Severity) (rows : List Alert)
    → having s (select p rows) ≡ count (λ r. p r && sev_eq r.severity s) rows
having-select p s [] = refl
having-select p s (r ∷ rows) = ground (arith, having-select p s rows)

sev_eq_rank : (a b : Severity) → sev_eq a b ≡ (sev_rank a == sev_rank b)
sev_eq_rank a b = ground arith

sev_refl : (a : Severity) → sev_eq a a ≡ true
sev_refl a = ground arith

nothing_worst : (l : List Alert) → worst_of l ≡ none → l ≡ []
unfolding worst_of
nothing_worst [] h = refl
nothing_worst (r ∷ l) h = elim (Option-cases (worst_of l)) [
  | inl e ↦ ground arith
  | inr (s, e) ↦ ground arith
]

-- The worst row has a severity that occurs, and no worse one does.
abbrev IsWorst : List Alert → Alert → Type 0
IsWorst l a =
    (1 ≤ having a.severity l) × ((s : Severity) → sev_rank s < sev_rank a.severity → having s l ≡ 0)

worst_of_lem : (l : List Alert) (a : Alert) → worst_of l ≡ some a → IsWorst l a
unfolding worst_of
worst_of_lem [] a h = ground arith
worst_of_lem (r ∷ l) a h = elim (Option-cases (worst_of l)) [
  | inl e ↦
      let empty = nothing_worst l e in
      let same : r ≡ a = ground arith in
      subst (λ (x : List Alert). IsWorst (r ∷ x) a) (sym empty)
        (subst (IsWorst (r ∷ [])) same
          (rw (sev_refl r.severity) (omega arith), λ t k. ground (arith, sev_eq_rank r.severity t)))
  | inr (s, e) ↦
      let (some_s, none_worse) = worst_of_lem l s e in
      elim (Bool-cases (worse s r)) [
        | inl w ↦
            let same : s ≡ a = ground arith in
            subst (IsWorst (r ∷ l)) same (
              ground (arith, some_s),
              λ t k. ground (arith, none_worse t k, sev_eq_rank r.severity t),
            )
        | inr w ↦
            let same : r ≡ a = ground arith in
            subst (IsWorst (r ∷ l)) same (
              rw (sev_refl r.severity) (omega arith),
              λ t k. ground (arith, none_worse t, sev_eq_rank r.severity t),
            )
      ]
]

-- Without a worst alert every count is 0; else it has a severity that is counted, and no worse one
-- is.
abbrev pub AgreesWith : (Severity → ℕ) → Option Alert → Type 0
AgreesWith c none = (s : Severity) → c s ≡ 0
AgreesWith c (some a) =
    (1 ≤ c a.severity) × ((s : Severity) → sev_rank s < sev_rank a.severity → c s ≡ 0)

-- worst_open and count_by_severity of a named property agree: if there is no worst alert, every
-- count is 0; else the severity of the worst alert has a count of at least 1, and the counts of
-- all worse severities are 0.
pub worst_open-AgreesWith :
    (provider_id property_id : String) (rows : List Alert)
    → truthy property_id ≡ true
    → (let c = count_by_severity provider_id (some property_id) rows in
        AgreesWith c (worst_open provider_id property_id rows))
unfolding worst_open count_by_severity
worst_open-AgreesWith provider_id property_id rows given =
    let p = is_worst_candidate provider_id property_id in
    let c : (s : Severity)
        → having s (select p rows)
          ≡ count (λ r. is_counted provider_id (some property_id) r && sev_eq r.severity s) rows =
      λ s. rw given (having-select p s rows) in
    elim (Option-cases (worst_of (select p rows))) [
      | inl e ↦ rw e (λ s. sym (c s) ∙ ap (having s) (nothing_worst (select p rows) e))
      | inr (a, e) ↦
          let (some_a, none_worse) = worst_of_lem (select p rows) a e in
          rw e (subst (λ (n : ℕ). 1 ≤ n) (c a.severity) some_a, λ s k. sym (c s) ∙ none_worse s k)
    ]
