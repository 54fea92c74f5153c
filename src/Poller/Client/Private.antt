-- ===== src/Poller/Client/Private.antt =====
-- What requests do with the credentials, and when they return.
use itdashboard.Prelude.{◌≡◌, refl, ap, ◌∙◌, String, Option, none, some, ◌⊎◌, inl, inr, arith}
use itdashboard.Poller.Json.{Json, Fields, merge, Python}
use itdashboard.Poller.Client.{
  Outcome, tls_error, other_error, response, Session, way, credentials, decoded, answered, request,
  request_or_raise, status, networks, device_details, slice_view,
}
use itdashboard.Poller.Query.{status_params, networks_params, slice_params, device_details_params}
use itdashboard.Poller.Config.{Settings}

module _ {F : Type 0} (py : Python F) where
  -- Settings with other credentials.
  abbrev pub with_credentials : String → String → Settings → Settings
  with_credentials username password cfg = record cfg {
    sdlan_username = username;
    sdlan_password = password;
  }

  -- The session answers a call the same whichever of the two credentials it is sent.
  abbrev pub AnswersAlike : Settings → Settings → Session F → Type 0
  AnswersAlike cfg other session =
      (params : Fields F)
      → session (way py cfg) (merge (credentials py cfg) params)
        ≡ session (way py cfg) (merge (credentials py other) params)

  module _ (cfg : Settings) (username password : String) (session : Session F) where
    answered_private :
        (params : Fields F) (o : Outcome F)
        → answered py cfg params o ≡ answered py (with_credentials username password cfg) params o
    unfolding answered decoded
    answered_private params (tls_error e) = refl
    answered_private params (other_error kind e) = refl
    answered_private params (response r) =
        let same : (v : Option (Json F))
            → decoded py cfg params r v
              ≡ decoded py (with_credentials username password cfg) params r v =
          λ v. elim v [ none ↦ refl | some v ↦ refl ] in
        ground (arith, same r.json)

    request_private :
        AnswersAlike cfg (with_credentials username password cfg) session
        → (params : Fields F)
        → request py cfg session params
          ≡ request py (with_credentials username password cfg) session params
    unfolding request way
    request_private h params =
        answered_private params (session (way py cfg) (merge (credentials py cfg) params))
        ∙ ap (answered py (with_credentials username password cfg) params) (h params)

    request_or_raise_private :
        AnswersAlike cfg (with_credentials username password cfg) session
        → (params : String ⊎ Fields F)
        → request_or_raise py cfg session params
          ≡ request_or_raise py (with_credentials username password cfg) session params
    request_or_raise_private h (inl e) = refl
    request_or_raise_private h (inr params) = request_private h params

    -- If the platform answers every call the same whichever of two credentials it is sent, then
    -- each of the four queries has the same result with both: what it returns, raises and logs
    -- does not depend on the credentials otherwise.
    pub queries_private :
        AnswersAlike cfg (with_credentials username password cfg) session
        → (let other = with_credentials username password cfg in
            (status py cfg session ≡ status py other session)
            × ((setname site : Option String)
                → networks py cfg session setname site ≡ networks py other session setname site)
            × ((dev_id endpoint_id endpoint_name : Option String) (start stop : Option F)
                → device_details py cfg session dev_id endpoint_id endpoint_name start stop
                  ≡ device_details py other session dev_id endpoint_id endpoint_name start stop)
            × ((endpoint : String)
                → slice_view py cfg session endpoint ≡ slice_view py other session endpoint))
    unfolding status networks device_details slice_view
    queries_private h = (
      request_private h status_params,
      λ setname site. request_private h (networks_params cfg setname site),
      λ dev_id endpoint_id endpoint_name start stop.
          request_or_raise_private h
            (device_details_params dev_id endpoint_id endpoint_name start stop),
      λ endpoint. request_private h (slice_params endpoint),
    )
