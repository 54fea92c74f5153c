-- ===== src/Backend/PropertyDetail/Tile.antt =====
-- The estate and the detail of a property show the same property.
use itdashboard.Prelude.{
  ℕ, ◌≡◌, refl, String, Bool, true, false, some, List, [], ◌∷◌, map, inr, arith, str_eq, eq_iff,
  select, select_passes, All, All-imp, All-both, All-select,
}
use text.Mathlib.TextPositions.{eq_refl}
use itdashboard.Table.Delete.{IsKeyed}
use itdashboard.Table.Rank.Weak.{All-rank_by}
use itdashboard.Backend.Database.{Property, EdgeBox, RawEvent, Database}
use itdashboard.Backend.Database.Keys.{first_where-own}
use itdashboard.Backend.Properties.{has_key}
use itdashboard.Backend.Properties
use itdashboard.Backend.Estate.{
  Estate, PropertySummary, first_of, box_of, edge_box_summary, tile_of, healths_of,
  list_for_property, properties_of, estate_loop, estate_of, get_estate, worse_tile,
  list_edge_boxes_for_property, get_edge_box_for_property,
}
use itdashboard.Backend.PropertyDetail.{Detail, detail_of, get_property}

-- A tile says of a property what its detail says.
pub record SaysSame (t : PropertySummary) (d : Detail) : Type 0 where
  pub property_id : t.property_id ≡ d.property_id
  pub name : t.name ≡ d.name
  pub health_score : t.health_score ≡ d.health_score
  pub health_status : t.health_status ≡ d.health_status
  pub open_alerts : t.open_alerts ≡ d.open_alerts
  pub edge_box : t.edge_box ≡ first_of d.edge_boxes

abbrev pub property_key : Property → String × String
property_key p = (p.provider_id, p.property_id)

module _ (collate : String → String → Bool) (summary : RawEvent → String) (now : ℕ)
    (provider_id : String) (db : Database) where
  -- The detail is found and says the same as the tile.
  abbrev pub IsShown : PropertySummary → Type 0
  IsShown t =
      (d : Detail) × (get_property collate summary now provider_id t.property_id db ≡ inr d)
      × SaysSame t d

  box_of-first_of :
      (boxes : List EdgeBox)
      → box_of now (first_of boxes) ≡ first_of (map (edge_box_summary now) boxes)
  box_of-first_of [] = refl
  box_of-first_of (b ∷ boxes) = refl

  tile-IsShown :
      (prop : Property)
      → Properties.get provider_id prop.property_id db.properties ≡ some prop
      → (let devices = list_for_property collate provider_id prop.property_id db.devices in
          IsShown (tile_of now (healths_of collate devices) prop provider_id db))
  unfolding get_property detail_of tile_of get_edge_box_for_property
  tile-IsShown prop h = rw h (
    detail_of collate summary now provider_id prop.property_id db prop,
    refl,
    record {
      property_id = refl;
      name = refl;
      health_score = refl;
      health_status = refl;
      open_alerts = refl;
      edge_box =
          box_of-first_of (list_edge_boxes_for_property provider_id prop.property_id db.edge_boxes);
    },
  )

  loop-IsShown :
      (props : List Property)
      → All (λ p. Properties.get provider_id p.property_id db.properties ≡ some p) props
      → All IsShown (estate_loop collate now provider_id db props).tiles
  unfolding estate_loop
  loop-IsShown [] h = tt
  loop-IsShown (p ∷ props) h = (tile-IsShown p h.0, loop-IsShown props h.1)

  estate_of-IsShown :
      (below : String → String → Bool) (worst_first : Bool) (e : Estate)
      → All IsShown e.tiles
      → All IsShown (estate_of worst_first below e).1
  unfolding estate_of
  estate_of-IsShown below true e h = All-rank_by worse_tile IsShown e.tiles h
  estate_of-IsShown below false e h =
      All-rank_by (λ (a b : PropertySummary). below a.name b.name) IsShown e.tiles h

  -- If properties have distinct keys, the request for the property of any tile of the estate is
  -- answered, with the same name, score, status and open alerts as the tile, and the edge box of
  -- the tile is the first one of the answer.
  pub get_estate-get_property :
      (below : String → String → Bool) (worst_first : Bool)
      → IsKeyed property_key db.properties
      → All IsShown (get_estate collate below now provider_id worst_first db).1
  unfolding get_estate properties_of Properties.get
  get_estate-get_property below worst_first keyed =
      let mine : Property → Bool = λ p. str_eq p.provider_id provider_id in
      let P : Property → Type 0 =
        λ p. Properties.get provider_id p.property_id db.properties ≡ some p in
      let found =
        first_where-own property_key (λ r s. has_key provider_id r.property_id s)
          (λ r. mine r ≡ true) (λ r e. rw (e, eq_refl r.property_id) refl)
          (λ r s e k.
            let a = (eq_iff r.provider_id provider_id).0 e in
            let b = (eq_iff s.provider_id provider_id).0 (ground (arith, k)) in
            let c = (eq_iff s.property_id r.property_id).0 (ground (arith, k)) in cc (a, b, c))
          db.properties keyed in
      let both =
        All-both (λ p. mine p ≡ true → P p) (λ p. mine p ≡ true) (select mine db.properties)
          (All-select (λ p. mine p ≡ true → P p) mine db.properties found)
          (select_passes mine db.properties) in
      let chosen =
        All-imp (λ p. (mine p ≡ true → P p) × (mine p ≡ true)) P (λ p h. h.0 h.1)
          (select mine db.properties) both in
      let props = properties_of collate provider_id db.properties in
      estate_of-IsShown below worst_first (estate_loop collate now provider_id db props) (
        loop-IsShown props (
          All-rank_by (λ (a b : Property). collate a.name b.name) P (select mine db.properties)
            chosen))
