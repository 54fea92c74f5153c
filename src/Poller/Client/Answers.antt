-- ===== src/Poller/Client/Answers.antt =====
-- When a request returns and what it logs; what each query sends.
use itdashboard.Prelude.{
  ◌≡◌, ◌≢◌, str_eq, refl, sym, ap, ◌∙◌, String, true, false, ◌||◌, Option, none, some, [], ◌∷◌, inl,
  inr, arith, ◌==◌, if◌then◌else◌, Bool-cases, select, length,
}
use itdashboard.Text.{truthy, or_else}
use itdashboard.Poller.Json.{Json, null, number, text, object, Fields, merge, Python, get}
use itdashboard.Poller.Config.Loaded.{get-put}
use itdashboard.Poller.Config.Redact.{Hides, redact_lem}
use itdashboard.Poller.Client.{
  Response, Outcome, tls_error, other_error, response, Session, Block, Result, is_success, way,
  credentials, log_raw, decoded, answered, request,
}
use itdashboard.Poller.Query.{is_given, given_or, identified, put_number, device_details_params}
use itdashboard.Poller.Config.{Settings}

module _ {F : Type 0} where
  -- The call came back with a good status code and this JSON.
  abbrev pub Good : Outcome F → Json F → Type 0
  Good (response r) v = (is_success r.status_code ≡ true) × (r.json ≡ some v)
  Good o v = ⊥

  module _ (py : Python F) where
    -- A block of the log shows no secret.
    abbrev pub Discreet : Option (Block F) → Type 0
    Discreet none = Unit
    Discreet (some b) = Hides py b.params × Hides py b.answer

    log_raw-Discreet :
        (cfg : Settings) (params : Fields F) (v : Json F) → Discreet (log_raw py cfg params v)
    unfolding log_raw
    log_raw-Discreet cfg params v =
        elim (Bool-cases (truthy (py.strip (or_else (some cfg.sdlan_raw_log_path) "")))) [
          | inl e ↦ rw e ((redact_lem py (object params)).0, (redact_lem py v).0)
          | inr e ↦ rw e tt
        ]

    -- What holds of a result that returns.
    abbrev Returns : Settings → Fields F → Outcome F → Result F → Type 0
    Returns cfg params o r =
        ((v : Json F) (log : Option (Block F)) → r ≡ inr (v, log) → Good o v)
        × ((v : Json F) → Good o v → r ≡ inr (v, log_raw py cfg params v))

    decoded_json :
        (cfg : Settings) (params : Fields F) (r : Response F) (j : Option (Json F)) (v : Json F)
        (log : Option (Block F))
        → decoded py cfg params r j ≡ inr (v, log)
        → j ≡ some v
    unfolding decoded
    decoded_json cfg params r none v log h = ground (arith, h)
    decoded_json cfg params r (some w) v log h = cc h

    decoded_of_json :
        (cfg : Settings) (params : Fields F) (r : Response F) (j : Option (Json F)) (v : Json F)
        → j ≡ some v
        → decoded py cfg params r j ≡ inr (v, log_raw py cfg params v)
    unfolding decoded
    decoded_of_json cfg params r none v h = ground (arith, h)
    decoded_of_json cfg params r (some w) v h =
        let same : w ≡ v = cc h in ap (λ x. inr (x, log_raw py cfg params x)) same

    answered_success :
        (cfg : Settings) (params : Fields F) (r : Response F)
        → is_success r.status_code ≡ true
        → answered py cfg params (response r) ≡ decoded py cfg params r r.json
    unfolding answered
    answered_success cfg params r e =
        let no : (r.status_code == 401 || r.status_code == 403) ≡ false = ground arith in
        rw (no, e) refl

    answered_failure :
        (cfg : Settings) (params : Fields F) (r : Response F)
        → is_success r.status_code ≡ false
        → (m : String) × (answered py cfg params (response r) ≡ inl m)
    unfolding answered
    answered_failure cfg params r e =
        elim (Bool-cases (r.status_code == 401 || r.status_code == 403)) [
          | inl c ↦ rw c (_, refl)
          | inr c ↦ rw (c, e) (_, refl)
        ]

    answered-Returns :
        (cfg : Settings) (params : Fields F) (o : Outcome F)
        → Returns cfg params o (answered py cfg params o)
    unfolding answered
    answered-Returns cfg params (tls_error e) = (λ v log h. ground (arith, h), λ v h. absurd h)
    answered-Returns cfg params (other_error kind e) =
        (λ v log h. ground (arith, h), λ v h. absurd h)
    answered-Returns cfg params (response r) = elim (Bool-cases (is_success r.status_code)) [
      | inl e ↦
          let same = answered_success cfg params r e in
          (
            λ v log h. (e, decoded_json cfg params r r.json v log (sym same ∙ h)),
            λ v h. same ∙ decoded_of_json cfg params r r.json v h.1,
          )
      | inr e ↦
          let (m, raised) = answered_failure cfg params r e in
          (λ v log h. ground (arith, raised, h), λ v h. ground (arith, e, h.0))
    ]

    -- A request returns exactly if the platform answered with a status code from 200 to 299 and
    -- with JSON, and then it returns this JSON; else it raises. What it logs of its parameters and
    -- of the answer shows no secret.
    pub request_lem :
        (cfg : Settings) (session : Session F) (params : Fields F)
        → (let o = session (way py cfg) (merge (credentials py cfg) params) in
            let r = request py cfg session params in
            ((v : Json F) (log : Option (Block F)) → r ≡ inr (v, log) → Good o v × Discreet log)
            × ((v : Json F) → Good o v → r ≡ inr (v, log_raw py cfg params v)))
    unfolding request
    request_lem cfg session params =
        let o = session (way py cfg) (merge (credentials py cfg) params) in
        let (sound, complete) = answered-Returns cfg params o in
        (
          λ v log h.
              let good = sound v log h in
              let same : log ≡ log_raw py cfg params v = cc (h, complete v good) in
              (good, rw same (log_raw-Discreet cfg params v)),
          complete,
        )

  -- How a parameter that may be left out arrives.
  abbrev pub shown : Option String → Json F
  shown none = null
  shown (some s) = if truthy s then text s else null

  put_number_other :
      (key other : String) (n : Option F) (d : Fields F)
      → str_eq key other ≡ false
      → get other (put_number key n d) ≡ get other d
  put_number_other key other none d h = refl
  put_number_other key other (some n) d h =
      let e = get-put other key (number n) d in ground (arith, e, h)

  times_kept :
      (start stop : Option F) (d : Fields F) (key : String)
      → str_eq "start" key ≡ false
      → str_eq "stop" key ≡ false
      → get key (put_number "stop" stop (put_number "start" start d)) ≡ get key d
  times_kept start stop d key h k =
      put_number_other "stop" key stop (put_number "start" start d) k
      ∙ put_number_other "start" key start d h

  shown_iff : (o : Option String) → shown o ≡ (if is_given o then text (given_or o "") else null)
  shown_iff none = refl
  shown_iff (some s) = refl

  identified_lem :
      (dev_id endpoint_id endpoint_name : Option String)
      → length (select is_given (dev_id ∷ endpoint_id ∷ endpoint_name ∷ [])) ≡ 1
      → (let params = identified dev_id endpoint_id endpoint_name in
          (get "query" params ≡ text "device_details")
          × (get "dev_id" params ≡ shown dev_id)
          × (get "endpoint_id" params ≡ shown endpoint_id)
          × (get "endpoint_name" params ≡ shown endpoint_name))
  identified_lem dev_id endpoint_id endpoint_name h = (
    ground arith,
    ground (arith, h, shown_iff dev_id),
    ground (arith, h, shown_iff endpoint_id),
    ground (arith, h, shown_iff endpoint_name),
  )

  pub device_details_params_lem :
      (dev_id endpoint_id endpoint_name : Option String) (start stop : Option F)
      → (let r = device_details_params dev_id endpoint_id endpoint_name start stop in
          let given = length (select is_given (dev_id ∷ endpoint_id ∷ endpoint_name ∷ [])) in
          (given ≢ 1 → (e : String) × (r ≡ inl e))
          × (given ≡ 1
              → (params : Fields F) × (r ≡ inr params)
                × (get "query" params ≡ text "device_details")
                × (get "dev_id" params ≡ shown dev_id)
                × (get "endpoint_id" params ≡ shown endpoint_id)
                × (get "endpoint_name" params ≡ shown endpoint_name)))
  unfolding device_details_params
  device_details_params_lem dev_id endpoint_id endpoint_name start stop =
      let given = length (select is_given (dev_id ∷ endpoint_id ∷ endpoint_name ∷ [])) in
      let one : Fields F = identified dev_id endpoint_id endpoint_name in
      (
        λ h. let e : (given == 1) ≡ false = ground (arith, h) in rw e (_, refl),
        λ h.
            let e : (given == 1) ≡ true = ground (arith, h) in
            let (query, dev, endpoint, name) = identified_lem dev_id endpoint_id endpoint_name h in
            let keep = times_kept start stop one in
            rw e (
              put_number "stop" stop (put_number "start" start one),
              refl,
              keep "query" refl refl ∙ query,
              keep "dev_id" refl refl ∙ dev,
              keep "endpoint_id" refl refl ∙ endpoint,
              keep "endpoint_name" refl refl ∙ name,
            ),
      )
