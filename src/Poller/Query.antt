-- ===== src/Poller/Query.antt =====
-- The parameters of the four queries of SdLanClient in poller/sdlan_client.py, without credentials.
use itdashboard.Prelude.{
  String, Bool, false, not, Option, none, some, [], ◌∷◌, ◌⊎◌, inl, inr, ◌==◌, if◌then◌else◌, select,
  length,
}
use itdashboard.Text.{truthy}
use itdashboard.Poller.Json.{Json, number, text, Fields, dict, put}
use itdashboard.Poller.Config.{Settings}

-- `x if x is not None else default`
abbrev pub given_or : Option String → String → String
given_or none default = default
given_or (some s) default = s

-- `x not in (None, "")`
abbrev pub is_given : Option String → Bool
is_given none = false
is_given (some s) = truthy s

module _ {F : Type 0} where
  unfoldable pub status_params : Fields F
  status_params = dict (("query", text "status") ∷ [])

  abbrev put_if : Bool → String → Json F → Fields F → Fields F
  put_if b key v d = if b then put key v d else d

  unfoldable pub networks_params : Settings → Option String → Option String → Fields F
  networks_params cfg setname site =
      let set = given_or setname cfg.sdlan_setname in
      let place = given_or site cfg.sdlan_site in
      put_if (truthy place) "site" (text place)
        (put_if (truthy set) "setname" (text set) (dict (("query", text "networks") ∷ [])))

  abbrev pub put_number : String → Option F → Fields F → Fields F
  put_number key none d = d
  put_number key (some n) d = put key (number n) d

  -- The query with the identifier that is given.
  abbrev pub identified : Option String → Option String → Option String → Fields F
  identified dev_id endpoint_id endpoint_name =
      let query = dict (("query", text "device_details") ∷ []) in
      if is_given dev_id
      then put "dev_id" (text (given_or dev_id "")) query
      else if is_given endpoint_id
      then put "endpoint_id" (text (given_or endpoint_id "")) query
      else put "endpoint_name" (text (given_or endpoint_name "")) query

  -- `start` and `stop` are whole numbers already, which `int` keeps.
  unfoldable pub device_details_params :
      Option String → Option String → Option String → Option F → Option F → String ⊎ Fields F
  device_details_params dev_id endpoint_id endpoint_name start stop =
      if not (length (select is_given (dev_id ∷ endpoint_id ∷ endpoint_name ∷ [])) == 1)
      then inl "device_details needs exactly one of dev_id, endpoint_id, endpoint_name"
      else inr (
          put_number "stop" stop
            (put_number "start" start (identified dev_id endpoint_id endpoint_name)))

  unfoldable pub slice_params : String → Fields F
  slice_params endpoint = dict (("query", text "slice") ∷ ("endpoint", text endpoint) ∷ [])
