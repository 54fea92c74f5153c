-- ===== src/Backend/Health/Score.antt =====
-- The health of a property, from the health of its devices.
use itdashboard.Prelude.{
  ℕ, ◌≤◌, ◌≡◌, ◌≢◌, ◌↔◌, refl, Bool, true, false, Option, List, [], ◌∷◌, map, arith, if◌then◌else◌,
  count, length, length-select-le,
}
use itdashboard.Status.{Status, healthy, degraded, unhealthy, unknown, status_eq, status_eq_iff}
use itdashboard.Backend.Health.{
  status_to_score_floor, any_is, all_are, worst, property_health_score,
}

abbrev pub Devices : Type 0
Devices = List (Status × Option ℕ)

-- How many devices have a status.
abbrev pub having : Status → Devices → ℕ
having s devices = count (λ d. status_eq d.0 s) devices

any_is-having :
    (s : Status) (devices : Devices)
    → (any_is s (map (λ d. d.0) devices) ≡ true) ↔ (1 ≤ having s devices)
any_is-having s [] = ground arith
any_is-having s (d ∷ devices) = ground (arith, any_is-having s devices)

all_are-having :
    (s : Status) (devices : Devices)
    → (all_are s (map (λ d. d.0) devices) ≡ true) ↔ (having s devices ≡ length devices)
all_are-having s [] = ground arith
all_are-having s (d ∷ devices) = ground (
  arith,
  all_are-having s devices,
  length-select-le (λ (e : Status × Option ℕ). status_eq e.0 s) devices,
)

none_else :
    (s : Status) (l : List Status)
    → status_eq healthy s ≡ false
    → all_are healthy l ≡ true
    → any_is s l ≡ false
none_else s [] e h = refl
none_else s (t ∷ l) e h =
    ground (arith, none_else s l e, status_eq_iff t healthy, status_eq_iff t s)

-- The choice that `worst` makes, from the three tests.
choice_lem :
    (u g a : Bool)
    → (a ≡ true → u ≡ false)
    → (a ≡ true → g ≡ false)
    → (let s = if u then unhealthy else if g then degraded else if a then healthy else degraded in
        ((s ≡ unhealthy) ↔ (u ≡ true)) × ((s ≡ healthy) ↔ (a ≡ true)) × (s ≢ unknown))
choice_lem true g a h k = ground arith
choice_lem false true a h k = ground arith
choice_lem false false true h k = ground arith
choice_lem false false false h k = ground arith

worst_lem :
    (l : List Status)
    → ((worst l ≡ unhealthy) ↔ (any_is unhealthy l ≡ true))
      × ((worst l ≡ healthy) ↔ (all_are healthy l ≡ true))
      × (worst l ≢ unknown)
worst_lem l =
    choice_lem (any_is unhealthy l) (any_is degraded l) (all_are healthy l)
      (none_else unhealthy l refl) (none_else degraded l refl)

both {ℓ κ μ} : {A : Type ℓ} {B : Type κ} {C : Type μ} → A ↔ B → B ↔ C → A ↔ C
both f g = ((λ a. g.0 (f.0 a)), (λ c. f.1 (g.1 c)))

-- The score of a property is at most the ceiling of its status; the status is unknown exactly if
-- there are no devices, unhealthy exactly if some device is, and healthy exactly if there is a
-- device and all are healthy.
pub property_health_score_lem :
    (devices : Devices)
    → (let (score, status) = property_health_score devices in
        (score ≤ status_to_score_floor status)
        × ((status ≡ unknown) ↔ (devices ≡ []))
        × ((status ≡ unhealthy) ↔ (1 ≤ having unhealthy devices))
        × ((status ≡ healthy) ↔ ((1 ≤ length devices) × (having healthy devices ≡ length devices))))
unfolding property_health_score
property_health_score_lem [] = ground arith
property_health_score_lem (d ∷ devices) =
    let l = map (λ (e : Status × Option ℕ). e.0) (d ∷ devices) in
    let (bad, good, known) = worst_lem l in
    let nonempty : (having healthy (d ∷ devices) ≡ length (d ∷ devices))
        ↔ ((1 ≤ length (d ∷ devices)) × (having healthy (d ∷ devices) ≡ length (d ∷ devices))) =
      ((λ e. (omega arith, e)), (λ p. p.1)) in
    (
      ground arith,
      ((λ e. absurd (known e)), (λ e. ground arith)),
      both bad (any_is-having unhealthy (d ∷ devices)),
      both (both good (all_are-having healthy (d ∷ devices))) nonempty,
    )
