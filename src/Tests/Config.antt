-- ===== src/Tests/Config.antt =====
-- The poller's configuration: what is missing, what load makes of a file, what redact hides.
use itdashboard.Prelude.{ℕ, ◌≡◌, ◌↔◌, refl, String, some, [], ◌∷◌, str_eq}
use itdashboard.Poller.Json.{Json, number, text, array, object, nil, cons, Fields, Python, dict}
use itdashboard.Poller.Config.{default_config, load, missing_keys, redact, safe_url}
use itdashboard.Poller.Config.Redact.{Alike, Hides, redact_lem}
use itdashboard.Tests.Mapper.{py as natural}

-- Every secret is written out, so that a text contains a word only if they are equal.
abbrev pub py : Python ℕ
py = record natural { contains = λ s w. str_eq s w }

abbrev literal : String → ℕ
literal s = 0

abbrev defaults : Fields ℕ
defaults =
    dict (("sdlan_username", text "") ∷ ("sdlan_password", text "") ∷ ("edge_id", text "edge") ∷ [])

abbrev file : Fields ℕ
file = dict (("_comment", text "credentials") ∷ ("sdlan_username", text "admin") ∷ [])

missing_test :
    missing_keys (default_config literal "box") ≡ "sdlan_username" ∷ "sdlan_password" ∷ []
unfolding missing_keys default_config
missing_test = refl

load_test :
    load defaults (some file)
    ≡ dict (
        ("sdlan_username", text "admin")
        ∷ ("sdlan_password", text "")
        ∷ ("edge_id", text "edge")
        ∷ [])
unfolding load
load_test = refl

safe_url_test : safe_url "https://platform//" ≡ "https://platform/api/request"
unfolding safe_url
safe_url_test = refl

abbrev logged : Json ℕ
logged = object (
    dict (
      ("user", text "admin")
      ∷ ("password", text "hunter2")
      ∷ ("sites", array (cons (object (dict (("token", number 7) ∷ []))) nil))
      ∷ []))

redact_test :
    redact py logged
    ≡ object (
        dict (
          ("user", text "admin")
          ∷ ("password", text "***")
          ∷ ("sites", array (cons (object (dict (("token", text "***") ∷ []))) nil))
          ∷ []))
unfolding redact
redact_test = refl

redact_lem_example :
    Hides py (redact py logged)
    × (Hides py logged → redact py logged ≡ logged)
    × ((w : Json ℕ) → (redact py logged ≡ redact py w) ↔ Alike py logged w)
redact_lem_example = redact_lem py logged
