-- ===== src/Poller/Config.antt =====
-- poller/config.py: the configuration with its defaults, what is missing of it, and what is hidden
-- of secrets before anything is logged.
pub mod Redact
pub mod Loaded
use Prim.Native.String.{◌++◌}
use package.text.Mathlib.Text.{starts_with}
use itdashboard.Prelude.{
  String, Bool, true, false, ◌||◌, Option, none, some, List, [], ◌∷◌, str_eq, if◌then◌else◌, select,
  any,
}
use itdashboard.Text.{concat}
use itdashboard.Poller.Json.{
  Json, null, bool, number, text, array, object, Items, nil, cons, Fields, end, field, Python, get,
  merge, dict, is_null, is_text,
}

-- What the client reads of the configuration: texts, as in the defaults.
pub record Settings : Type 0 where
  pub sdlan_base_url : String
  pub sdlan_username : String
  pub sdlan_password : String
  pub sdlan_http_method : String
  pub sdlan_post_format : String
  pub sdlan_raw_log_path : String
  pub sdlan_setname : String
  pub sdlan_site : String

abbrev pub required_keys : List String
required_keys =
    "edge_id" ∷ "service_provider" ∷ "property_id" ∷ "cloud_endpoint" ∷ "sdlan_base_url"
    ∷ "sdlan_username" ∷ "sdlan_password" ∷ "poll_interval_seconds" ∷ "queue_db_path"
    ∷ "state_db_path" ∷ "device_id_prefix" ∷ []

abbrev pub secret_keys : List String
secret_keys = "sdlan_password" ∷ "password" ∷ "passwd" ∷ "secret" ∷ "token" ∷ []

-- `s.rstrip("/")`
unfoldable pub without_slashes : String → String
without_slashes String.[] = ""
without_slashes (String.◌∷◌ c s) =
    let rest = without_slashes s in if str_eq (String.◌∷◌ c rest) "/" then "" else String.◌∷◌ c rest

-- The API's URL, of the base URL that is configured.
unfoldable pub safe_url : String → String
unfolding without_slashes
safe_url base_url = without_slashes base_url ++ "/api/request"

module _ {F : Type 0} where
  -- `literal` reads a number as the code writes it, and `hostname` is the name of the machine.
  unfoldable pub default_config : (String → F) → String → Fields F
  unfolding concat
  default_config literal hostname = dict (
      ("edge_id", text (concat ("sdlan-" ∷ hostname ∷ [])))
      ∷ ("service_provider", text "bluip")
      ∷ ("property_id", text "234")
      ∷ ("property_name", text "sheraton")
      ∷ ("cloud_endpoint", text "http://127.0.0.1:4000/v1/edge/ingest")
      ∷ ("sdlan_base_url", text "https://sdlan.example.com")
      ∷ ("sdlan_username", text "")
      ∷ ("sdlan_password", text "")
      ∷ ("sdlan_http_method", text "POST")
      ∷ ("sdlan_post_format", text "form")
      ∷ ("sdlan_verify_tls", bool true)
      ∷ ("sdlan_ca_bundle", text "")
      ∷ ("sdlan_timeout_seconds", number (literal "30"))
      ∷ ("poll_interval_seconds", number (literal "300"))
      ∷ ("sdlan_setname", text "")
      ∷ ("sdlan_site", text "")
      ∷ ("device_id_source", text "dev_id")
      ∷ ("device_id_prefix", text "sdlan-234")
      ∷ ("default_device_class", text "switch")
      ∷ ("device_overrides", object end)
      ∷ ("report_platform_as_device", bool true)
      ∷ ("platform_device_class", text "orchestrator")
      ∷ ("temp_warn_celsius", number (literal "55.0"))
      ∷ ("temp_crit_celsius", number (literal "70.0"))
      ∷ ("optical_rx_warn_dbm", number (literal "-20.0"))
      ∷ ("link_flap_window_seconds", number (literal "900"))
      ∷ ("link_flap_min_changes", number (literal "3"))
      ∷ ("platform_freespace_warn_percent", number (literal "15.0"))
      ∷ ("queue_db_path", text "/var/lib/sdlan-poller/queue.db")
      ∷ ("state_db_path", text "/var/lib/sdlan-poller/state.db")
      ∷ ("upload_batch_size", number (literal "50"))
      ∷ ("upload_retry_seconds", number (literal "30"))
      ∷ ("cloud_upload_log_path", text "/var/log/sdlan-poller/cloud_upload.log")
      ∷ ("sdlan_raw_log_path", text "")
      ∷ [])

  -- The entries of the file whose keys do not start with "_".
  unfoldable pub without_comments : Fields F → Fields F
  without_comments end = end
  without_comments (field k v rest) =
      let others = without_comments rest in if starts_with k "_" then others else field k v others

  -- `load`, of the defaults and of the file, if there is one.
  unfoldable pub load : Fields F → Option (Fields F) → Fields F
  unfolding without_comments
  load defaults none = defaults
  load defaults (some cfg) = merge defaults (without_comments cfg)

  -- Required keys that are absent or still empty.
  unfoldable pub missing_keys : Fields F → List String
  missing_keys cfg = select (λ k. is_null (get k cfg) || is_text "" (get k cfg)) required_keys

  module _ (py : Python F) where
    abbrev pub is_secret : String → Bool
    is_secret k = any (λ s. py.contains (py.lower k) s) secret_keys

    unfoldable mutual
      pub redact : Json F → Json F
      redact (array items) = array (redact_items items)
      redact (object fields) = object (redact_fields fields)
      redact v = v

      pub redact_items : Items F → Items F
      redact_items nil = nil
      redact_items (cons v rest) = cons (redact v) (redact_items rest)

      pub redact_fields : Fields F → Fields F
      redact_fields end = end
      redact_fields (field k v rest) =
          let shown = redact v in
          field k (if is_secret k then text "***" else shown) (redact_fields rest)
