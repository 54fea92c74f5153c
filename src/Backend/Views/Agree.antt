-- ===== src/Backend/Views/Agree.antt =====
-- The list of a property's alerts agrees with the requests for its single alerts.
use itdashboard.Prelude.{
  ℕ, suc, ◌≡◌, refl, ap, String, Bool, true, ◌&&◌, Option, none, some, List, [], ◌∷◌, map, inr,
  arith, str_eq, eq_iff, select, select_passes, All, All-imp, All-both, All-select, All-take,
}
use text.Mathlib.TextPositions.{eq_refl}
use itdashboard.Table.Delete.{IsKeyed}
use itdashboard.Table.Rank.Weak.{All-rank_by}
use itdashboard.Backend.Database.{AlertState, Alert, Property, Database}
use itdashboard.Backend.Alerts.Open.{alert_key}
use itdashboard.Backend.Database.Keys.{first_where-own}
use itdashboard.Backend.AutoFix.{visible}
use itdashboard.Backend.AutoFix
use itdashboard.Backend.Properties
use itdashboard.Backend.Pages.{Codec, before, after, any_state, list_by_property}
use itdashboard.Backend.Views.{
  AlertView, Listing, view_of, found_view, get_alert, split, states_of, property_alerts,
  list_property_alerts,
}

module _ (provider_id : String) where
  -- A row of the provider is what `get` finds by its id.
  abbrev IsFound : List Alert → Alert → Type 0
  IsFound rows r =
      str_eq r.provider_id provider_id ≡ true → AutoFix.get r.alert_id provider_id rows ≡ some r

  all-IsFound : (rows : List Alert) → IsKeyed alert_key rows → All (IsFound rows) rows
  unfolding AutoFix.get
  all-IsFound rows keyed =
      first_where-own alert_key (λ r s. visible r.alert_id provider_id s)
        (λ r. str_eq r.provider_id provider_id ≡ true)
        (λ r mine. rw (eq_refl r.alert_id, mine) refl)
        (λ r s mine e. (eq_iff s.alert_id r.alert_id).0 (ground (arith, e))) rows keyed

  module _ {ℓ} {Cursor : Type ℓ} (below : String → String → Bool) (codec : Codec Cursor) where
    and_left : (a b : Bool) → (a && b) ≡ true → a ≡ true
    and_left a b h = ground arith

    page_found :
        (property_id : String) (states : List AlertState) (limit : ℕ) (cursor : Option Cursor)
        (rows : List Alert)
        → IsKeyed alert_key rows
        → All
            (λ r. AutoFix.get r.alert_id provider_id rows ≡ some r)
            (list_by_property below codec provider_id property_id states limit cursor rows).items
    unfolding list_by_property
    page_found property_id states limit cursor rows keyed =
        let matches : Alert → Bool = λ r.
          (str_eq r.provider_id provider_id
            && str_eq r.property_id property_id
            && any_state states r.state)
          && after below codec cursor r in
        let P : Alert → Type 0 = λ r. AutoFix.get r.alert_id provider_id rows ≡ some r in
        let both =
          All-both (IsFound rows) (λ r. matches r ≡ true) (select matches rows)
            (All-select (IsFound rows) matches rows (all-IsFound rows keyed))
            (select_passes matches rows) in
        let chosen : All P (select matches rows) =
          All-imp (λ r. IsFound rows r × (matches r ≡ true)) P (λ r h. h.0 (ground (arith, h.1)))
            (select matches rows) both in
        All-take P limit _
          (All-take P (suc limit) _ (All-rank_by (before below) P (select matches rows) chosen))

module _ {ℓ} {Cursor : Type ℓ} (strip : String → String) (below : String → String → Bool)
    (codec : Codec Cursor) (provider_id : String) (db : Database) where
  views_found :
      (items : List Alert)
      → All (λ r. AutoFix.get r.alert_id provider_id db.alerts ≡ some r) items
      → All (λ v. get_alert v.alert_id provider_id db ≡ inr v) (map (view_of db.devices) items)
  unfolding get_alert view_of
  views_found [] h = tt
  views_found (r ∷ items) h = (ap (found_view db.devices) h.0, views_found items h.1)

  answered-get_alert :
      (property_id : String) (limit : ℕ) (cursor : Option Cursor) (p : Listing AlertView Cursor)
      (states : Option (List AlertState)) (prop : Option Property)
      → IsKeyed alert_key db.alerts
      → property_alerts strip below codec provider_id property_id limit cursor db states prop
        ≡ inr p
      → All (λ v. get_alert v.alert_id provider_id db ≡ inr v) p.items
  answered-get_alert property_id limit cursor p none prop keyed h =
      let never : ⊥ = ground (arith, h) in absurd never
  answered-get_alert property_id limit cursor p (some states) none keyed h =
      let never : ⊥ = ground (arith, h) in absurd never
  answered-get_alert property_id limit cursor p (some states) (some prop) keyed h =
      let page =
        list_by_property below codec provider_id property_id states limit cursor db.alerts in
      let same : map (view_of db.devices) page.items ≡ p.items = cc h in
      rw (← same) (
        views_found page.items
          (page_found provider_id below codec property_id states limit cursor db.alerts keyed))

  -- If alerts have distinct ids, every item of an answered page of the alerts of a property is
  -- what the request for the alert of its id answers.
  pub list_property_alerts-get_alert :
      (property_id status : String) (limit : ℕ) (cursor : Option Cursor)
      (p : Listing AlertView Cursor)
      → IsKeyed alert_key db.alerts
      → list_property_alerts strip below codec provider_id property_id status limit cursor db
        ≡ inr p
      → All (λ v. get_alert v.alert_id provider_id db ≡ inr v) p.items
  unfolding list_property_alerts
  list_property_alerts-get_alert property_id status limit cursor p keyed h =
      answered-get_alert property_id limit cursor p (states_of strip (split status))
        (Properties.get provider_id property_id db.properties) keyed h
