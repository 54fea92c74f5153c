-- ===== src/Tests/Client.antt =====
-- Requests to the platform, with a session that answers every call alike, and a report of devices.
use itdashboard.Prelude.{ℕ, ◌≡◌, ◌↔◌, refl, String, Option, none, some, List, [], ◌∷◌, inl, inr}
use itdashboard.Poller.Json.{
  Json, null, number, text, array, object, nil, cons, Fields, dict, merge,
}
use itdashboard.Poller.Config.{Settings}
use itdashboard.Poller.Client.{
  post_form, response, Session, Block, way, credentials, log_raw, request, status, networks,
  device_details, slice_view,
}
use itdashboard.Poller.Client.Private.{with_credentials, queries_private}
use itdashboard.Poller.Client.Answers.{Good, Discreet, request_lem}
use itdashboard.Poller.Devices.{iter_devices, iter_problems}
use itdashboard.Poller.Devices.Inside.{Inside, Among}
use itdashboard.Poller.Devices.Walk.{iter_devices_lem}
use itdashboard.Poller.Devices.Labels.{IsPlain, domain_fields, report_devices, iter_devices-report}
use itdashboard.Tests.Config.{py}

abbrev cfg : Settings
cfg = record {
  sdlan_base_url = "https://platform/";
  sdlan_username = "admin";
  sdlan_password = "hunter2";
  sdlan_http_method = "POST";
  sdlan_post_format = "form";
  sdlan_raw_log_path = "raw.log";
  sdlan_setname = "";
  sdlan_site = "";
}

abbrev pub switch : Fields ℕ
switch = dict (("dev_id", number 17) ∷ ("hw_sn", text "A1") ∷ [])

abbrev pub answer : Json ℕ
answer =
    object
      (dict (("Domain A", object (dict (("Site 1", array (cons (object switch) nil)) ∷ []))) ∷ []))

abbrev session : Session ℕ
session w sent =
    response (record { status_code = 200; body = "{}"; content_type = "json"; json = some answer })

request_test :
    (way py cfg ≡ post_form)
    × (device_details py cfg session none (some "") none none none
        ≡ inl "device_details needs exactly one of dev_id, endpoint_id, endpoint_name")
unfolding way device_details
request_test = (refl, refl)

queries_private_example :
    (let other = with_credentials py "root" "secret" cfg in
      (status py cfg session ≡ status py other session)
      × ((setname site : Option String)
          → networks py cfg session setname site ≡ networks py other session setname site)
      × ((dev_id endpoint_id endpoint_name : Option String) (start stop : Option ℕ)
          → device_details py cfg session dev_id endpoint_id endpoint_name start stop
            ≡ device_details py other session dev_id endpoint_id endpoint_name start stop)
      × ((endpoint : String)
          → slice_view py cfg session endpoint ≡ slice_view py other session endpoint))
queries_private_example = queries_private py cfg "root" "secret" session (λ params. refl)

request_lem_example :
    (let o = session (way py cfg) (merge (credentials py cfg) switch) in
      let r = request py cfg session switch in
      ((v : Json ℕ) (log : Option (Block ℕ)) → r ≡ inr (v, log) → Good o v × Discreet py log)
      × ((v : Json ℕ) → Good o v → r ≡ inr (v, log_raw py cfg switch v)))
request_lem_example = request_lem py cfg session switch

iter_devices_test :
    iter_devices py answer
    ≡ record { domain = text "Domain A"; site = text "Site 1"; device = switch } ∷ []
unfolding iter_devices
iter_devices_test = refl

iter_problems_test :
    iter_problems py (object (dict (("problems", array (cons (text "fan") (cons null nil))) ∷ [])))
    ≡ dict (("message", text "fan") ∷ []) ∷ []
unfolding iter_problems
iter_problems_test = refl

iter_devices_lem_example : Among switch (iter_devices py answer) ↔ Inside 8 answer switch
iter_devices_lem_example = iter_devices_lem py answer switch

abbrev report : List (String × List (String × List (Fields ℕ)))
report = ("Domain A", ("Site 1", switch ∷ []) ∷ []) ∷ []

switch-IsPlain : IsPlain py switch
switch-IsPlain = record {
  device_like = refl;
  no_Domain = refl;
  no_domain = refl;
  no_Site = refl;
  no_site = refl;
}

iter_devices-report_example :
    iter_devices py (object (domain_fields report)) ≡ report_devices report
iter_devices-report_example =
    iter_devices-report py report refl ((refl, ((switch-IsPlain, tt), tt)), tt)
