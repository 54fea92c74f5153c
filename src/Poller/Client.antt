-- ===== src/Poller/Client.antt =====
-- The class SdLanClient of poller/sdlan_client.py. The session of the library requests is an
-- argument: it takes the way of the call and its parameters, and gives an exception or a response.
pub mod Private
pub mod Answers
use itdashboard.Prelude.{
  ℕ, String, Bool, true, false, not, ◌&&◌, ◌||◌, Option, none, some, List, [], ◌∷◌, ◌⊎◌, inl, inr,
  str_eq, ◌==◌, leb, ltb, if◌then◌else◌, select, length,
}
use itdashboard.Text.{left, truthy, or_else, concat, decimal}
use itdashboard.Poller.Json.{Json, number, text, object, Fields, dict, put, merge, Python}
use itdashboard.Poller.Query.{networks_params, device_details_params, slice_params, status_params}
use itdashboard.Poller.Config.{Settings, safe_url, redact}

-- How a call is made: `get(params=…)`, `post(json=…)`, `post(params=…)`, `post(data=…)`.
pub data Way : Type 0 where
  get_query post_json post_query post_form : Way

module _ (F : Type 0) where
  -- A response: its status code, text and content type, and what its JSON is, if it is JSON.
  pub record Response : Type 0 where
    pub status_code : ℕ
    pub body : String
    pub content_type : String
    pub json : Option (Json F)

  -- What becomes of a call: an SSLError or another exception, with its type, or a response.
  pub data Outcome : Type 0 where
    tls_error : String → Outcome
    other_error : String → String → Outcome
    response : Response → Outcome

  abbrev pub Session : Type 0
  Session = Way → Fields F → Outcome

  -- A block of the raw log: its URL, params and response; it is written if there is a path.
  pub record Block : Type 0 where
    pub url : String
    pub params : Json F
    pub answer : Json F

  -- What a request does: it raises SdLanError with a message, or it returns and may log.
  abbrev pub Result : Type 0
  Result = String ⊎ (Json F × Option Block)

abbrev pub is_success : ℕ → Bool
is_success code = leb 200 code && ltb code 300

module _ {F : Type 0} (py : Python F) where
  unfoldable pub way : Settings → Way
  way cfg =
      if str_eq (py.upper (or_else (some cfg.sdlan_http_method) "POST")) "GET"
      then get_query
      else if str_eq (py.lower (or_else (some cfg.sdlan_post_format) "form")) "json"
      then post_json
      else if str_eq (py.lower (or_else (some cfg.sdlan_post_format) "form")) "query"
      then post_query
      else post_form

  unfoldable pub credentials : Settings → Fields F
  credentials cfg =
      dict (("username", text cfg.sdlan_username) ∷ ("password", text cfg.sdlan_password) ∷ [])

  -- `_log_raw`
  unfoldable pub log_raw : Settings → Fields F → Json F → Option (Block F)
  unfolding safe_url redact
  log_raw cfg params data_ =
      if truthy (py.strip (or_else (some cfg.sdlan_raw_log_path) ""))
      then some (record {
        url = safe_url cfg.sdlan_base_url;
        params = redact py (object params);
        answer = redact py data_;
      })
      else none

  -- A response whose status code is good: its JSON, or an error.
  unfoldable pub decoded : Settings → Fields F → Response F → Option (Json F) → Result F
  unfolding log_raw safe_url concat left
  decoded cfg params r (some v) = inr (v, log_raw cfg params v)
  decoded cfg params r none = inl (
      concat (
        safe_url cfg.sdlan_base_url
        ∷ " "
        ∷ py.repr (object params)
        ∷ " returned non-JSON (content-type "
        ∷ r.content_type
        ∷ "): "
        ∷ left 400 r.body
        ∷ []))

  -- What `_request` makes of what became of the call.
  unfoldable pub answered : Settings → Fields F → Outcome F → Result F
  unfolding decoded safe_url concat decimal left
  answered cfg params (tls_error e) = inl (
      concat (
        "TLS verification failed for "
        ∷ safe_url cfg.sdlan_base_url
        ∷ ": "
        ∷ e
        ∷ ". If the platform uses a private CA, set sdlan_ca_bundle to its certificate."
        ∷ []))
  answered cfg params (other_error kind e) = inl (
      concat (
        kind
        ∷ " calling "
        ∷ safe_url cfg.sdlan_base_url
        ∷ " "
        ∷ py.repr (object params)
        ∷ ": "
        ∷ e
        ∷ []))
  answered cfg params (response r) =
      let url = safe_url cfg.sdlan_base_url in
      if r.status_code == 401 || r.status_code == 403
      then inl (
          concat (
            "HTTP "
            ∷ decimal r.status_code
            ∷ " from "
            ∷ url
            ∷ " - SD-LAN rejected the credentials (check sdlan_username / sdlan_password)"
            ∷ []))
      else if not (is_success r.status_code)
      then inl (
          concat (
            "HTTP "
            ∷ decimal r.status_code
            ∷ " from "
            ∷ url
            ∷ " "
            ∷ py.repr (object params)
            ∷ ": "
            ∷ left 400 r.body
            ∷ []))
      else decoded cfg params r r.json

  -- `_request`
  unfoldable pub request : Settings → Session F → Fields F → Result F
  unfolding way credentials answered
  request cfg session params =
      answered cfg params (session (way cfg) (merge (credentials cfg) params))

  unfoldable pub status : Settings → Session F → Result F
  unfolding request status_params
  status cfg session = request cfg session status_params

  unfoldable pub networks : Settings → Session F → Option String → Option String → Result F
  unfolding request networks_params
  networks cfg session setname site = request cfg session (networks_params cfg setname site)

  -- The request, unless the parameters were refused.
  abbrev pub request_or_raise : Settings → Session F → String ⊎ Fields F → Result F
  request_or_raise cfg session (inl e) = inl e
  request_or_raise cfg session (inr params) = request cfg session params

  unfoldable pub device_details :
      Settings
      → Session F
      → Option String
      → Option String
      → Option String
      → Option F
      → Option F
      → Result F
  unfolding request device_details_params
  device_details cfg session dev_id endpoint_id endpoint_name start stop =
      request_or_raise cfg session
        (device_details_params dev_id endpoint_id endpoint_name start stop)

  unfoldable pub slice_view : Settings → Session F → String → Result F
  unfolding request slice_params
  slice_view cfg session endpoint = request cfg session (slice_params endpoint)
