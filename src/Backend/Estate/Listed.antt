-- ===== src/Backend/Estate/Listed.antt =====
-- What get_estate lists, in which order, and that its totals are those of what it lists.
use mathlib.Core.List.{Perm}
use mathlib.Core.List.Perm
use itdashboard.Prelude.{
  ℕ, ◌≤◌, ◌≡◌, refl, sym, ◌∙◌, String, Bool, true, false, List, map, arith, str_eq, length, select,
  All,
}
use itdashboard.Table.Rank.{rank_by}
use itdashboard.Table.Rank.Weak.{
  IsWeak, IsSorted, All-rank_by, rank_by-IsSorted, rank_by-sum_by, rank_by-perm,
}
use itdashboard.Backend.Database.{Property, Database}
use itdashboard.Backend.Estate.{
  PropertySummary, KpiStrip, Estate, worse_tile, estate_of, properties_of, estate_loop, get_estate,
}
use itdashboard.Backend.Estate.Sums.{
  AddsUp, IsTileOf, average_score-le, IsAverage, average_score-IsAverage, estate_loop-AddsUp,
  online_sites,
}

worse_tile-IsWeak : IsWeak worse_tile
worse_tile-IsWeak = record {
  asymmetric = λ a b h. ground arith;
  negative = λ a b c h k. ground arith;
}

-- What the answer holds of a provider, with the ids of its properties.
pub record Shows (provider_id : String) (ids : List String) (kpi : KpiStrip)
    (tiles : List PropertySummary) : Type 0 where
  pub listed : Perm (map (λ t. t.property_id) tiles) ids
  pub own : All (IsTileOf provider_id) tiles
  pub total : kpi.sites_total ≡ length tiles
  pub sums : AddsUp tiles kpi.open_alerts kpi.sites_online
  pub mean : IsAverage kpi.estate_health_score tiles
  pub bounded : kpi.estate_health_score ≤ 100

module _ (before : PropertySummary → PropertySummary → Bool) where
  rank_by-AddsUp :
      (e : Estate)
      → AddsUp e.tiles e.all_sev e.sites_online
      → AddsUp (rank_by before e.tiles) e.all_sev e.sites_online
  rank_by-AddsUp e h = record {
    online = h.online ∙ sym (rank_by-sum_by before online_sites e.tiles);
    all_p1 = h.all_p1 ∙ sym (rank_by-sum_by before (λ t. t.open_alerts.p1) e.tiles);
    all_p2 = h.all_p2 ∙ sym (rank_by-sum_by before (λ t. t.open_alerts.p2) e.tiles);
    all_p3 = h.all_p3 ∙ sym (rank_by-sum_by before (λ t. t.open_alerts.p3) e.tiles);
    all_p4 = h.all_p4 ∙ sym (rank_by-sum_by before (λ t. t.open_alerts.p4) e.tiles);
  }

estate_of-Shows :
    (worst_first : Bool) (below : String → String → Bool) (provider_id : String) (ids : List String)
    (e : Estate)
    → AddsUp e.tiles e.all_sev e.sites_online
    → All (IsTileOf provider_id) e.tiles
    → Perm (map (λ t. t.property_id) e.tiles) ids
    → (let (kpi, tiles) = estate_of worst_first below e in
        Shows provider_id ids kpi tiles × (worst_first ≡ true → IsSorted worse_tile tiles))
unfolding estate_of
estate_of-Shows true below provider_id ids e sums own listed =
    let own' = All-rank_by worse_tile (IsTileOf provider_id) e.tiles own in
    (
      record {
        listed = Perm.trans (rank_by-perm worse_tile (λ t. t.property_id) e.tiles) listed;
        own = own';
        total = refl;
        sums = rank_by-AddsUp worse_tile e sums;
        mean = average_score-IsAverage (rank_by worse_tile e.tiles);
        bounded = average_score-le provider_id (rank_by worse_tile e.tiles) own';
      },
      λ h. rank_by-IsSorted worse_tile worse_tile-IsWeak e.tiles,
    )
estate_of-Shows false below provider_id ids e sums own listed =
    let by_name : PropertySummary → PropertySummary → Bool = λ a b. below a.name b.name in
    let own' = All-rank_by by_name (IsTileOf provider_id) e.tiles own in
    (
      record {
        listed = Perm.trans (rank_by-perm by_name (λ t. t.property_id) e.tiles) listed;
        own = own';
        total = refl;
        sums = rank_by-AddsUp by_name e sums;
        mean = average_score-IsAverage (rank_by by_name e.tiles);
        bounded = average_score-le provider_id (rank_by by_name e.tiles) own';
      },
      λ h. ground (arith, h),
    )

-- Whatever the orders of names, the estate of a provider has exactly one tile for each of its
-- properties, with a score of at most 100. The sites in all, those online and the open alerts of
-- each severity are those of the tiles that it lists, and its score is their average score, cut to
-- a whole number, or 0 without tiles. With the worst first, no tile stands behind one that it
-- should precede, by an open p1 and then by the score.
pub get_estate-Shows :
    (collate below : String → String → Bool) (now : ℕ) (provider_id : String) (worst_first : Bool)
    (db : Database)
    → (let (kpi, tiles) = get_estate collate below now provider_id worst_first db in
        let mine = select (λ p. str_eq p.provider_id provider_id) db.properties in
        Shows provider_id (map (λ p. p.property_id) mine) kpi tiles
        × (worst_first ≡ true → IsSorted worse_tile tiles))
unfolding get_estate properties_of
get_estate-Shows collate below now provider_id worst_first db =
    let mine = select (λ (p : Property). str_eq p.provider_id provider_id) db.properties in
    let by_name : Property → Property → Bool = λ a b. collate a.name b.name in
    let props = rank_by by_name mine in
    let (sums, own, ids) = estate_loop-AddsUp collate now provider_id db props in
    let listed = rank_by-perm by_name (λ (p : Property). p.property_id) mine in
    estate_of-Shows worst_first below provider_id (map (λ p. p.property_id) mine)
      (estate_loop collate now provider_id db props) sums own (rw ids listed)
