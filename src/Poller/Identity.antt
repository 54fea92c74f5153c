-- ===== src/Poller/Identity.antt =====
-- poller/mapper.py: the id and the class that the cloud knows a device by.
use Prim.Native.String.{◌++◌}
use itdashboard.Prelude.{
  String, Bool, false, ◌||◌, Option, none, some, List, [], ◌∷◌, str_eq, if◌then◌else◌,
}
use itdashboard.Text.{truthy, concat}
use itdashboard.Poller.Json.{
  Json, bool, number, text, Fields, Python, get, has_key, is_null, is_text, str,
}

-- What the messages take of the configuration.
pub record Identity (F : Type 0) : Type 0 where
  pub device_id_source : String
  pub device_id_prefix : String
  pub default_device_class : String
  pub device_overrides : Fields F
  pub platform_device_class : String
  pub property_name : String

-- `s.replace(c, t)` for a text c of one character.
unfoldable pub replace : String → String → String → String
replace c t String.[] = ""
replace c t (String.◌∷◌ x s) =
    let rest = replace c t s in if str_eq (String.◌∷◌ x "") c then t ++ rest else String.◌∷◌ x rest

module _ {F : Type 0} (py : Python F) where
  abbrev is_missing : Json F → Bool
  is_missing v = is_null v || is_text "" v

  -- The loop over the fallbacks, which keeps the last value if none is there.
  unfoldable pub fallback : Fields F → List String → Json F → Json F
  fallback device [] raw = raw
  fallback device (key ∷ keys) raw =
      let later = fallback device keys (get key device) in
      if is_missing (get key device) then later else get key device

  abbrev pub fallback_keys : List String
  fallback_keys = "dev_id" ∷ "hw_sn" ∷ "hw_ident" ∷ "endpoint_name" ∷ "hw_hostname" ∷ []

  unfoldable pub device_id_for : Identity F → Fields F → Option String
  unfolding fallback str replace concat
  device_id_for cfg device =
      let first = get cfg.device_id_source device in
      let raw = if is_missing first then fallback device fallback_keys first else first in
      let slug = replace ":" "" (replace "/" "-" (replace " " "_" (py.strip (str py raw)))) in
      let prefix = py.strip cfg.device_id_prefix in
      if is_missing raw
      then none
      else some (if truthy prefix then concat (prefix ∷ "-" ∷ slug ∷ []) else slug)

  -- `device.get("is_tor") in (True, "True", "true", 1)`
  abbrev is_tor : Json F → Bool
  is_tor (bool b) = b
  is_tor (number n) = py.is_one n
  is_tor (text s) = str_eq s "True" || str_eq s "true"
  is_tor v = false

  abbrev classes : List (String × String)
  classes =
      ("poe", "poe_switch")
      ∷ ("switch", "switch")
      ∷ ("router", "router")
      ∷ ("ont", "optical_edge")
      ∷ ("ftth", "optical_edge")
      ∷ ("fttp", "optical_edge")
      ∷ []

  unfoldable pub class_of : String → String → List (String × String) → String
  class_of default model [] = default
  class_of default model ((needle, klass) ∷ rest) =
      let later = class_of default model rest in if py.contains model needle then klass else later

  -- `str(device.get(key, ""))`
  abbrev text_of : String → Fields F → String
  text_of key device = if has_key key device then str py (get key device) else ""

  -- `_device_class`
  unfoldable pub device_class_of : Identity F → Fields F → String
  unfolding str class_of concat
  device_class_of cfg device =
      let model =
        py.lower (concat (text_of "hw_model" device ∷ " " ∷ text_of "hw_mfg" device ∷ [])) in
      if is_tor (get "is_tor" device)
      then "tor_switch"
      else class_of cfg.default_device_class model classes
