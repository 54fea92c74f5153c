-- ===== src/Backend/Estate/Sums.antt =====
-- What the loop of get_estate adds up.
use native.Mathlib.Nat.{div-le_of_le-mul, div-mul-le_self, lt-div-mul-add}
use itdashboard.Prelude.{
  ℕ, ◌*◌, ◌+◌, ◌≤◌, ◌<◌, ◌≡◌, refl, ap, String, Bool, List, [], ◌∷◌, map, arith, if◌then◌else◌,
  length, sum_by, All,
}
use itdashboard.Status.{Status, healthy, degraded, unhealthy, unknown}
use itdashboard.Backend.Database.{Property, Database}
use itdashboard.Backend.Health.{status_to_score_floor, property_health_score}
use itdashboard.Backend.Health.Score.{property_health_score_lem}
use itdashboard.Backend.Estate.{
  OpenAlerts, PropertySummary, Estate, average_score, estate_loop, online_of, tile_of, add_tile,
  list_for_property, healths_of,
}

abbrev pub online_sites : PropertySummary → ℕ
online_sites t = if online_of t.edge_box then 1 else 0

-- The numbers of the loop are the sums over its tiles.
pub record AddsUp (tiles : List PropertySummary) (all_sev : OpenAlerts) (sites_online : ℕ)
    : Type 0 where
  pub online : sites_online ≡ sum_by online_sites tiles
  pub all_p1 : all_sev.p1 ≡ sum_by (λ t. t.open_alerts.p1) tiles
  pub all_p2 : all_sev.p2 ≡ sum_by (λ t. t.open_alerts.p2) tiles
  pub all_p3 : all_sev.p3 ≡ sum_by (λ t. t.open_alerts.p3) tiles
  pub all_p4 : all_sev.p4 ≡ sum_by (λ t. t.open_alerts.p4) tiles

add_tile-AddsUp :
    (t : PropertySummary) (e : Estate)
    → AddsUp e.tiles e.all_sev e.sites_online
    → (let r = add_tile t e in AddsUp r.tiles r.all_sev r.sites_online)
add_tile-AddsUp t e h = record {
  online = let k = h.online in ground (arith, k);
  all_p1 = let k = h.all_p1 in omega (arith, k);
  all_p2 = let k = h.all_p2 in omega (arith, k);
  all_p3 = let k = h.all_p3 in omega (arith, k);
  all_p4 = let k = h.all_p4 in omega (arith, k);
}

floor_le : (s : Status) → status_to_score_floor s ≤ 100
floor_le healthy = omega arith
floor_le degraded = omega arith
floor_le unhealthy = omega arith
floor_le unknown = omega arith

-- What holds of a tile of a provider.
abbrev pub IsTileOf : String → PropertySummary → Type 0
IsTileOf provider_id t = (t.provider_id ≡ provider_id) × (t.health_score ≤ 100)

tile_of-IsTileOf :
    (now : ℕ) (devices : _) (prop : Property) (provider_id : String) (db : Database)
    → IsTileOf provider_id (tile_of now devices prop provider_id db)
unfolding tile_of
tile_of-IsTileOf now devices prop provider_id db =
    let h = (property_health_score_lem devices).0 in
    let k = floor_le (property_health_score devices).1 in (refl, omega (arith, h, k))

score-le :
    (provider_id : String) (tiles : List PropertySummary)
    → All (IsTileOf provider_id) tiles
    → sum_by (λ t. t.health_score) tiles ≤ length tiles * 100
score-le provider_id [] h = omega arith
score-le provider_id (t ∷ tiles) h =
    let one = h.0.1 in omega (arith, one, score-le provider_id tiles h.1)

pub average_score-le :
    (provider_id : String) (tiles : List PropertySummary)
    → All (IsTileOf provider_id) tiles
    → average_score tiles ≤ 100
average_score-le provider_id [] h = omega arith
average_score-le provider_id (t ∷ tiles) h =
    div-le_of_le-mul (length (t ∷ tiles)) (score-le provider_id (t ∷ tiles) h)

-- The average score, cut to a whole number; 0 without tiles.
abbrev pub IsAverage : ℕ → List PropertySummary → Type 0
IsAverage n [] = n ≡ 0
IsAverage n (t ∷ tiles) =
    let count = length (t ∷ tiles) in
    let total = sum_by (λ u. u.health_score) (t ∷ tiles) in
    (n * count ≤ total) × (total < n * count + count)

pub average_score-IsAverage : (tiles : List PropertySummary) → IsAverage (average_score tiles) tiles
average_score-IsAverage [] = refl
average_score-IsAverage (t ∷ tiles) =
    let total = sum_by (λ u. u.health_score) (t ∷ tiles) in
    (div-mul-le_self total (length (t ∷ tiles)), lt-div-mul-add (omega arith))

module _ (collate : String → String → Bool) (now : ℕ) (provider_id : String) (db : Database) where
  pub estate_loop-AddsUp :
      (props : List Property)
      → (let e = estate_loop collate now provider_id db props in
          AddsUp e.tiles e.all_sev e.sites_online
          × All (IsTileOf provider_id) e.tiles
          × (map (λ t. t.property_id) e.tiles ≡ map (λ p. p.property_id) props))
  unfolding estate_loop tile_of
  estate_loop-AddsUp [] = (
    record { online = refl; all_p1 = refl; all_p2 = refl; all_p3 = refl; all_p4 = refl },
    tt,
    refl,
  )
  estate_loop-AddsUp (prop ∷ rest) =
      let devices = list_for_property collate provider_id prop.property_id db.devices in
      let t = tile_of now (healths_of collate devices) prop provider_id db in
      let (sums, tiles, ids) = estate_loop-AddsUp rest in
      (
        add_tile-AddsUp t (estate_loop collate now provider_id db rest) sums,
        (tile_of-IsTileOf now (healths_of collate devices) prop provider_id db, tiles),
        ap (◌∷◌ prop.property_id) ids,
      )
