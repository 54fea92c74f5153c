-- ===== src/Tests/Pages.antt =====
-- The listing of alerts by pages, read through with one alert to a page.
use itdashboard.Prelude.{
  ℕ, ◌≡◌, refl, String, Bool, true, ◌&&◌, none, some, List, [], ◌∷◌, arith, str_eq, eq_iff,
}
use itdashboard.Text.Order.{below, below_irreflexive, below_transitive, below_total}
use itdashboard.Table.Delete.{IsKeyed}
use itdashboard.Table.Rank.{IsRanked}
use itdashboard.Status.{unhealthy}
use itdashboard.Backend.Database.{Severity, p1, p2, opened, Alert, Detail}
use itdashboard.Backend.Alerts.Counts.{
  count_by_severity, worst_open, AgreesWith, worst_open-AgreesWith,
}
use itdashboard.Backend.Alerts.Open.{alert_key}
use itdashboard.Backend.Cursor.{strip_pad}
use itdashboard.Backend.Pages.{Key, Codec, before, any_state, list, list_by_property, read_all}
use itdashboard.Backend.Pages.Traversal.{IsOrder, order_of, list-read_all}

below-IsOrder : IsOrder below
below-IsOrder = record {
  irreflexive = below_irreflexive;
  transitive = below_transitive;
  total = below_total;
}

-- The cursor as the three values themselves.
stripped_test : strip_pad "YWI=" ≡ "YWI"
unfolding strip_pad
stripped_test = refl

abbrev pub plain : Codec Key
plain = record { encode = λ k. k; decode = λ k. k; decode-encode = λ k. refl }

abbrev detail : Detail
detail = record {
  identity = record {
    severity = p1;
    state = opened;
    opened_at = 5;
    property_id = "hotel";
    property_name = "Hotel";
    device_id = "sw1";
    device_label = "Switch 1";
    alert_kind = "health_transition_to_unhealthy";
    correlation_id = "corr";
  };
  current_value = unhealthy;
  series = [];
  causal_chain = [];
  rationale = "";
}

abbrev pub alert : String → Severity → ℕ → Alert
alert id severity at = record {
  alert_id = id;
  provider_id = "isp";
  property_id = "hotel";
  device_id = some "sw1";
  severity = severity;
  state = opened;
  alert_kind = "health_transition_to_unhealthy";
  summary = "";
  correlation_id = none;
  opened_at = at;
  triaged_at = none;
  acted_at = none;
  resolved_at = none;
  auto_fix_authorized = true;
  detail = detail;
}

abbrev pub alerts : List Alert
alerts = alert "a" p2 5 ∷ alert "b" p1 5 ∷ alert "c" p1 9 ∷ []

abbrev ranked : List Alert
ranked = alert "c" p1 9 ∷ alert "b" p1 5 ∷ alert "a" p2 5 ∷ []

read_test : read_all (λ c. list below plain "isp" (opened ∷ []) 1 c alerts) 4 none ≡ some ranked
unfolding read_all list below
read_test = refl

pub alerts-IsKeyed : IsKeyed alert_key alerts
alerts-IsKeyed = (
  ((λ e. ground (arith, eq_iff "b" "a")), ((λ e. ground (arith, eq_iff "c" "a")), tt)),
  (((λ e. ground (arith, eq_iff "c" "b")), tt), (tt, tt)),
)

list-read_all_example :
    (let of_provider : Alert → Bool =
        λ r. str_eq r.provider_id "isp" && any_state (opened ∷ []) r.state in
      let of_property : Alert → Bool = λ r.
        str_eq r.provider_id "isp"
        && str_eq r.property_id "hotel"
        && any_state (opened ∷ []) r.state in
      (read_all (λ c. list below plain "isp" (opened ∷ []) 1 c alerts) 4 none
        ≡ some (order_of below of_provider alerts))
      × (read_all (λ c. list_by_property below plain "isp" "hotel" (opened ∷ []) 1 c alerts) 4 none
          ≡ some (order_of below of_property alerts))
      × IsRanked (before below) (order_of below of_provider alerts)
      × IsRanked (before below) (order_of below of_property alerts))
list-read_all_example =
    list-read_all below plain "isp" "hotel" (opened ∷ []) 1 4 alerts below-IsOrder alerts-IsKeyed
      (omega arith) (omega arith)

worst_test : worst_open "isp" "hotel" alerts ≡ some (alert "c" p1 9)
unfolding worst_open
worst_test = refl

worst_open-AgreesWith_example :
    AgreesWith (count_by_severity "isp" (some "hotel") alerts) (worst_open "isp" "hotel" alerts)
worst_open-AgreesWith_example = worst_open-AgreesWith "isp" "hotel" alerts refl
