-- ===== src/Backend/AutoFix/Once.antt =====
-- A request that is repeated dispatches once.
use itdashboard.Prelude.{
  ℕ, ◌+◌, ◌<◌, ◌≡◌, ◌⊎◌, refl, sym, ap, ◌∙◌, String, Bool, true, false, inl, inr, Option, none,
  some, List, [], ◌∷◌, arith, str_eq, eq_iff, All, Bool-cases, Option-cases,
}
use text.Mathlib.TextPositions.{eq_refl}
use itdashboard.Text.{truthy}
use itdashboard.Backend.Database.{Alert, Database}
use itdashboard.Backend.Message.{Fresh}
use itdashboard.Backend.AutoFix.{
  Response, Cache, ttl, get_cached_response, cache_response, Server, Answer, accepted, get,
  dispatch, check, answer_from, is_resolved, auto_fix,
}

cached_now :
    (now later : ℕ) (key : String) (r : Response) (c : Cache)
    → later < now + ttl
    → get_cached_response later key (cache_response now key r c) ≡ some r
unfolding get_cached_response cache_response
cached_now now later key r [] h = ground (arith, eq_refl key)
cached_now now later key r ((k, until, x) ∷ c) h = ground (arith, cached_now now later key r c h)

-- Whether the request is answered by a dispatch; if not, the server is as it was.
dispatch-cases :
    (now : ℕ) (fresh : Fresh) (key alert_id : String) (row : Option Alert) (s : Server)
    (r : Response)
    → (check now fresh key alert_id row s).1 ≡ accepted r
    → (check now fresh key alert_id row s).0.cache ≡ cache_response now key r s.cache
unfolding dispatch
dispatch-cases now fresh key alert_id none s r h = ground arith
dispatch-cases now fresh key alert_id (some row) s r h = ground arith

-- A request with a new key and a confirmation goes on to the alert.
auto_fix-new :
    (now : ℕ) (fresh : Fresh) (key alert_id provider_id : String) (s : Server)
    → truthy key ≡ true
    → get_cached_response now key s.cache ≡ none
    → auto_fix now fresh (some key) true alert_id provider_id s
      ≡ check now fresh key alert_id (get alert_id provider_id s.database.alerts) s
unfolding auto_fix
auto_fix-new now fresh key alert_id provider_id s k new = rw (k, new, auto_fix) refl

auto_fix-known :
    (now : ℕ) (fresh : Fresh) (key alert_id provider_id : String) (s : Server) (r : Response)
    → truthy key ≡ true
    → get_cached_response now key s.cache ≡ some r
    → auto_fix now fresh (some key) true alert_id provider_id s ≡ (s, accepted r)
unfolding auto_fix
auto_fix-known now fresh key alert_id provider_id s r k known = rw (k, known, auto_fix) refl

-- A request, as it is made at a time.
pub record Asked : Type 0 where
  pub now : ℕ
  pub fresh : Fresh
  pub idempotency_key : Option String
  pub confirm : Bool
  pub alert_id : String
  pub provider_id : String

-- What happens to the server: a request is answered, or something else changes the database.
pub data Happening : Type 0 where
  asked : Asked → Happening
  changed : Database → Happening

abbrev pub happens : Happening → Server → Server
happens (asked a) s =
    (auto_fix a.now a.fresh a.idempotency_key a.confirm a.alert_id a.provider_id s).0
happens (changed db) s = record s { database = db }

abbrev pub happen : List Happening → Server → Server
happen [] s = s
happen (h ∷ rest) s = happen rest (happens h s)

-- The request is made before this time.
abbrev pub MadeBefore : ℕ → Happening → Type 0
MadeBefore end (asked a) = a.now < end
MadeBefore end (changed db) = Unit

-- The key is answered with this response up to this time.
abbrev Answers : ℕ → String → Response → Cache → Type 0
Answers end key r c = (t : ℕ) → t < end → get_cached_response t key c ≡ some r

cached-other :
    (t now : ℕ) (key other : String) (r : Response) (c : Cache)
    → str_eq other key ≡ false
    → get_cached_response t key (cache_response now other r c) ≡ get_cached_response t key c
unfolding get_cached_response cache_response
cached-other t now key other r [] e = ground arith
cached-other t now key other r ((k, until, x) ∷ c) e =
    let differs : str_eq k other ≡ true → str_eq k key ≡ false =
      λ same. cc (e, (eq_iff k other).0 same) in
    ground (arith, cached-other t now key other r c e, differs)

-- A request leaves the cache as it was, or puts a response under its own key.
check-cache :
    (now : ℕ) (fresh : Fresh) (key alert_id : String) (row : Option Alert) (s : Server)
    → (let c = (check now fresh key alert_id row s).0.cache in
        (c ≡ s.cache) ⊎ ((r : Response) × (c ≡ cache_response now key r s.cache)))
unfolding dispatch
check-cache now fresh key alert_id none s = inl refl
check-cache now fresh key alert_id (some row) s = elim (Bool-cases (is_resolved row.state)) [
  | inl e ↦ rw e (inl refl)
  | inr e ↦ elim (Bool-cases row.auto_fix_authorized) [
    | inl a ↦ rw (e, a) (inr (_, refl))
    | inr a ↦ rw (e, a) (inl refl)
  ]
]

answer_from-cache :
    (now : ℕ) (fresh : Fresh) (key alert_id provider_id : String) (s : Server)
    → (let cached = get_cached_response now key s.cache in
        let c = (answer_from now fresh key alert_id provider_id cached s).0 in
        (c.cache ≡ s.cache)
        ⊎ ((cached ≡ none) × ((r : Response) × (c.cache ≡ cache_response now key r s.cache))))
answer_from-cache now fresh key alert_id provider_id s =
    elim (Option-cases (get_cached_response now key s.cache)) [
      | inr (r, e) ↦ rw e (inl refl)
      | inl e ↦
          let row = get alert_id provider_id s.database.alerts in
          rw e (elim (check-cache now fresh key alert_id row s) [
            | inl same ↦ inl same
            | inr stored ↦ inr (refl, stored)
          ])
    ]

stored-Answers :
    (end : ℕ) (key : String) (r : Response) (now : ℕ) (other : String) (c c' : Cache)
    → now < end
    → Answers end key r c
    → (c' ≡ c)
      ⊎ ((get_cached_response now other c ≡ none)
          × ((x : Response) × (c' ≡ cache_response now other x c)))
    → Answers end key r c'
stored-Answers end key r now other c c' soon h (inl same) =
    λ t k. ap (get_cached_response t key) same ∙ h t k
stored-Answers end key r now other c c' soon h (inr (new, (x, stored))) = λ t k.
    elim (Bool-cases (str_eq other key)) [
      | inl e ↦
          let same : other ≡ key = (eq_iff other key).0 e in
          absurd (cc (new, h now soon, ap (λ (i : String). get_cached_response now i c) same))
      | inr e ↦ ap (get_cached_response t key) stored ∙ cached-other t now key other x c e ∙ h t k
    ]

request-Answers :
    (end : ℕ) (key : String) (r : Response) (now : ℕ) (fresh : Fresh) (asked_key : Option String)
    (confirm : Bool) (alert_id provider_id : String) (s : Server)
    → now < end
    → Answers end key r s.cache
    → Answers end key r (auto_fix now fresh asked_key confirm alert_id provider_id s).0.cache
unfolding auto_fix
request-Answers end key r now fresh none confirm alert_id provider_id s soon h = h
request-Answers end key r now fresh (some other) confirm alert_id provider_id s soon h =
    elim (Bool-cases (truthy other)) [
      | inr e ↦ rw e h
      | inl e ↦ elim (Bool-cases confirm) [
        | inr c ↦ rw (e, c) h
        | inl c ↦
            rw (e, c)
              (stored-Answers end key r now other s.cache _ soon h
                (answer_from-cache now fresh other alert_id provider_id s))
      ]
    ]

happen-Answers :
    (end : ℕ) (key : String) (r : Response) (l : List Happening) (s : Server)
    → All (MadeBefore end) l
    → Answers end key r s.cache
    → Answers end key r (happen l s).cache
happen-Answers end key r [] s soon h = h
happen-Answers end key r (asked a ∷ rest) s soon h =
    happen-Answers end key r rest (happens (asked a) s) soon.1 (
      request-Answers end key r a.now a.fresh a.idempotency_key a.confirm a.alert_id a.provider_id s
        soon.0 h)
happen-Answers end key r (changed db ∷ rest) s soon h =
    happen-Answers end key r rest (record s { database = db }) soon.1 h

-- A fix that was dispatched under a new key answers every later confirmed request with that key
-- within a day, for whatever alert and provider, with the same response, and does nothing more
-- then: whatever else was asked of the server within the day, with this key or another, and
-- however its database was changed in between.
pub auto_fix-repeat :
    (now later : ℕ) (fresh again : Fresh) (key alert_id provider_id other_id other : String)
    (s : Server) (r : Response) (between : List Happening)
    → truthy key ≡ true
    → get_cached_response now key s.cache ≡ none
    → (auto_fix now fresh (some key) true alert_id provider_id s).1 ≡ accepted r
    → later < now + ttl
    → All (MadeBefore (now + ttl)) between
    → (let s' = happen between (auto_fix now fresh (some key) true alert_id provider_id s).0 in
        auto_fix later again (some key) true other_id other s' ≡ (s', accepted r))
auto_fix-repeat now later fresh again key alert_id provider_id other_id other s r between k new h
      soon before =
    let s' = (auto_fix now fresh (some key) true alert_id provider_id s).0 in
    let first = auto_fix-new now fresh key alert_id provider_id s k new in
    let row = get alert_id provider_id s.database.alerts in
    let stored =
      dispatch-cases now fresh key alert_id row s r
        (sym (ap (λ (p : Server × Answer). p.1) first) ∙ h) in
    let cache : s'.cache ≡ cache_response now key r s.cache =
      ap (λ (p : Server × Answer). p.0.cache) first ∙ stored in
    let at_first : Answers (now + ttl) key r s'.cache =
      λ t early. ap (get_cached_response t key) cache ∙ cached_now now t key r s.cache early in
    auto_fix-known later again key other_id other (happen between s') r k
      (happen-Answers (now + ttl) key r between s' before at_first later soon)
