-- ===== src/Poller/Report.antt =====
-- poller/mapper.py: the messages that are made of a device record, of the platform and of the
-- poller itself. The configuration's overrides are dicts, as the defaults have it.
pub mod Events
pub mod Contract
use Prim.Native.String.{◌++◌}
use mathlib.Core.Option
use package.text.Mathlib.Text.{starts_with}
use itdashboard.Prelude.{
  ℕ, zero, suc, ◌-◌, String, Bool, true, false, not, ◌||◌, Option, none, some, List, [], ◌∷◌, map,
  ◌++◌ as append, str_eq, if◌then◌else◌, length, take,
}
use itdashboard.Text.{left, truthy, or_else, concat}
use itdashboard.Poller.Json.{
  Json, null, bool, number, text, array, object, Fields, end, Python, get, has_key, is_null,
  is_text, is_true, str, or_json,
}
use itdashboard.Poller.Identity.{Identity, device_id_for, device_class_of}
use itdashboard.Poller.Mapper.{Limits, Assessment, assess_device, event_count}
use itdashboard.Poller.Platform.{PlatformLimits, assess_platform}

pub record Event (F : Type 0) : Type 0 where
  pub ts : F
  pub severity : String
  pub category : String
  pub message : String

pub data Kind : Type 0 where
  periodic transition : Kind

-- A message about a device. Only a transition has top events.
pub record Report (F : Type 0) : Type 0 where
  pub kind : Kind
  pub ts : F
  pub device_id : String
  pub device_name : Json F
  pub device_class : Json F
  pub vendor : Json F
  pub site : String
  pub health : Assessment
  pub reasons : List String
  pub event_count : ℕ
  pub top_events : List (Event F)

-- The severity and the category of a reason.
unfoldable pub grade : String → String × String
grade r =
    if starts_with r "lost_contact"
    then ("crit", "availability")
    else if starts_with r "hardware_fault"
    then ("err", "hardware")
    else if starts_with r "thermal_critical"
    then ("err", "thermal")
    else if starts_with r "thermal_warning"
    then ("warning", "thermal")
    else if starts_with r "ports_down" || starts_with r "link_flap"
    then ("warning", "link")
    else if starts_with r "optical_low"
    then ("warning", "optical")
    else ("warning", "other")

module _ {F : Type 0} where
  abbrev pub or_normal : F → String → String → List (Event F) → List (Event F)
  or_normal now category message [] =
      record { ts = now; severity = "info"; category = category; message = message } ∷ []
  or_normal now category message (e ∷ events) = e ∷ events

  abbrev pub events_if : Kind → List (Event F) → List (Event F)
  events_if periodic events = []
  events_if transition events = events

module _ {F : Type 0} (py : Python F) where
  unfoldable pub event_of : F → Json F → String → Event F
  unfolding grade str concat left
  event_of now detail r = record {
    ts = now;
    severity = (grade r).0;
    category = (grade r).1;
    message =
        left 200 (concat (r ∷ (if is_true py detail then " on " ++ str py detail else "") ∷ []));
  }

  -- `_top_events`
  unfoldable pub top_events_of : F → Fields F → List String → List (Event F)
  unfolding event_of
  top_events_of now device reasons =
      let detail =
        or_json py (get "hw_hostname" device) (or_json py (get "endpoint_name" device) (text "")) in
      or_normal now "other" "health returned to normal" (map (event_of now detail) (take 5 reasons))

  abbrev dict_of : Json F → Fields F
  dict_of (object fields) = fields
  dict_of v = end

  -- The message of a device whose id is known.
  unfoldable pub report_of :
      Identity F → Limits F → Fields F → Json F → Json F → Kind → F → String → Report F
  unfolding assess_device device_class_of top_events_of str left
  report_of cfg limits device domain site kind now dev_id =
      let a = assess_device py limits now device in
      let name = or_json py (get "endpoint_name" device) (
        or_json py (get "hw_hostname" device) (or_json py (get "hw_ident" device) (text dev_id))) in
      let place =
        or_json py site (or_json py (get "Site" device) (or_json py domain (text "unknown"))) in
      let override = dict_of (get dev_id cfg.device_overrides) in
      record {
        kind = kind;
        ts = now;
        device_id = dev_id;
        device_name = or_json py (get "device_name" override) (text (left 120 (str py name)));
        device_class =
            or_json py (get "device_class" override) (text (device_class_of py cfg device));
        vendor =
            or_json py (get "vendor" override)
              (text (left 60 (str py (or_json py (get "hw_mfg" device) (text "unknown")))));
        site = left 120 (str py (or_json py (get "site" override) place));
        health = a;
        reasons = take 10 a.reasons;
        event_count = event_count a;
        top_events = events_if kind (top_events_of now device a.reasons);
      }

  unfoldable pub device_message :
      Identity F → Limits F → Fields F → Json F → Json F → Kind → F → Option (Report F)
  unfolding device_id_for report_of
  device_message cfg limits device domain site kind now =
      Option.map (report_of cfg limits device domain site kind now) (device_id_for py cfg device)

  unfoldable pub problem_event : F → Fields F → Event F
  unfolding str concat left
  problem_event now p = record {
    ts = now;
    severity = "err";
    category = "platform";
    message = left 200 (
        concat (
          str py (or_json py (get "element_name" p) (or_json py (get "element" p) (text "element")))
          ∷ ": "
          ∷ str py (or_json py (get "message" p) (text "problem reported"))
          ∷ []));
  }

  unfoldable pub reason_event : F → String → Event F
  unfolding left
  reason_event now r = record {
    ts = now;
    severity = "warning";
    category = "platform";
    message = left 200 r;
  }

  -- The top events of the platform: its problems, and reasons up to five in all.
  unfoldable pub platform_events : F → List (Fields F) → List String → List (Event F)
  unfolding problem_event reason_event
  platform_events now problems reasons =
      let events = map (problem_event now) (take 5 problems) in
      or_normal now "platform" "platform returned to normal"
        (append events (map (reason_event now) (take (5 - length events) reasons)))

  unfoldable pub platform_report :
      Identity F → Fields F → List (Fields F) → Kind → F → Assessment → Report F
  unfolding str concat left platform_events
  platform_report cfg response problems kind now a = record {
    kind = kind;
    ts = now;
    device_id = concat (py.strip (or_else (some cfg.device_id_prefix) "sdlan") ∷ "-platform" ∷ []);
    device_name =
        text (left 120 (str py (or_json py (get "hostname" response) (text "sdlan_platform"))));
    device_class = text cfg.platform_device_class;
    vendor = text "corning";
    site = left 120 (or_else (some cfg.property_name) "unknown");
    health = a;
    reasons = take 10 a.reasons;
    event_count = event_count a;
    top_events = events_if kind (platform_events now problems a.reasons);
  }

  unfoldable pub platform_message :
      Identity F → PlatformLimits F → Fields F → List (Fields F) → Kind → F → Option (Report F)
  unfolding assess_platform platform_report
  platform_message cfg limits response problems kind now =
      Option.map (platform_report cfg response problems kind now)
        (assess_platform py limits now response (length problems))

-- The poller's own heartbeat; its counts are whole numbers already.
pub record EdgeHealth (F : Type 0) : Type 0 where
  pub ts : F
  pub tracked_devices : ℕ
  pub unhealthy_devices : ℕ
  pub queue_depth : ℕ
  pub summary_interval_seconds : ℕ

unfoldable pub edge_health_message : {F : Type 0} → ℕ → ℕ → ℕ → ℕ → F → EdgeHealth F
edge_health_message poll_interval_seconds tracked unhealthy queue_depth now = record {
  ts = now;
  tracked_devices = tracked;
  unhealthy_devices = unhealthy;
  queue_depth = queue_depth;
  summary_interval_seconds = poll_interval_seconds;
}
