-- ===== src/Poller/Reading.antt =====
-- What poller/mapper.py reads in a device's record: numbers, temperatures, the states of the hardware
-- and the ports. Numbers and the functions of Python's library are arguments (Poller.Json).
use package.text.Mathlib.Text.{starts_with}
use itdashboard.Prelude.{
  String, not, ◌||◌, Option, none, some, List, [], ◌∷◌, ◌++◌, str_eq, if◌then◌else◌, any,
}
use itdashboard.Text.{truthy}
use itdashboard.Poller.Json.{
  Json, null, bool, number, text, array, object, Items, nil, cons, Fields, end, field, Python, get,
  has_key, str,
}

pub data Hardware : Type 0 where
  ok bad unclear : Hardware

abbrev bad_words : List String
bad_words = "fail" ∷ "failed" ∷ "bad" ∷ "missing" ∷ "absent" ∷ "error" ∷ "critical" ∷ []

abbrev ok_words : List String
ok_words = "ok" ∷ "good" ∷ "normal" ∷ "present" ∷ "true" ∷ []

module _ {F : Type 0} (py : Python F) where
  -- `_num`
  unfoldable pub num : Json F → Option F
  num (number n) = some n
  num (text s) = py.number_of_text s
  num _ = none

  unfoldable pub hw_word : String → Hardware
  hw_word s =
      if not (truthy s)
      then unclear
      else if any (str_eq s) ok_words
      then ok
      else if any (str_eq s) bad_words
      then bad
      else if any (λ w. py.contains s w) bad_words
      then bad
      else unclear

  -- `_hw_state`
  unfoldable pub hw_state : Json F → Hardware
  unfolding str hw_word
  hw_state null = unclear
  hw_state (bool b) = if b then ok else bad
  hw_state v = hw_word (py.lower (py.strip (str py v)))

  -- `device.get("attributes") or {}`, if it is a dict.
  abbrev attributes : Json F → Fields F
  attributes (object fields) = fields
  attributes _ = end

  abbrev add_number : Option F → List F → List F
  add_number none l = l
  add_number (some n) l = n ∷ l

  unfoldable pub attribute_temps : Fields F → List F
  unfolding num
  attribute_temps end = []
  attribute_temps (field k v rest) =
      let others = attribute_temps rest in
      if starts_with (py.lower k) "temp" then add_number (num v) others else others

  unfoldable pub item_temps : Items F → List F
  unfolding num
  item_temps nil = []
  item_temps (cons v rest) = add_number (num v) (item_temps rest)

  abbrev value_temps : Json F → List F
  value_temps (array items) = item_temps items
  value_temps v = add_number (num v) []

  -- `_temps`
  unfoldable pub temps : Fields F → List F
  unfolding attribute_temps item_temps
  temps device =
      attribute_temps (attributes (get "attributes" device))
      ++ value_temps (if has_key "Temp" device then get "Temp" device else get "temp" device)

  unfoldable pub hw_attributes : Fields F → List (String × Hardware)
  unfolding hw_state
  hw_attributes end = []
  hw_attributes (field k v rest) =
      let others = hw_attributes rest in
      let key = py.lower k in
      if starts_with key "psu" || starts_with key "fan" || starts_with key "power"
      then (k, hw_state v) ∷ others
      else others

  -- `_hw_items`
  unfoldable pub hw_items : Fields F → List (String × Hardware)
  unfolding hw_attributes
  hw_items device =
      hw_attributes (attributes (get "attributes" device))
      ++ (if has_key "PSU" device then ("PSU", hw_state (get "PSU" device)) ∷ [] else [])

  abbrev port_entry : String → Json F → List (String × Fields F) → List (String × Fields F)
  port_entry port (object rec) rest = (port, rec) ∷ rest
  port_entry port v rest = rest

  unfoldable pub ports_of_fields : Fields F → List (String × Fields F)
  ports_of_fields end = []
  ports_of_fields (field port v rest) = port_entry port v (ports_of_fields rest)

  abbrev port_name : Fields F → Json F
  port_name rec =
      if has_key "Port Number" rec
      then get "Port Number" rec
      else if has_key "port" rec
      then get "port" rec
      else text "?"

  abbrev listed_port : Json F → List (String × Fields F) → List (String × Fields F)
  listed_port (object rec) rest = (str py (port_name rec), rec) ∷ rest
  listed_port v rest = rest

  unfoldable pub ports_of_items : Items F → List (String × Fields F)
  unfolding str
  ports_of_items nil = []
  ports_of_items (cons v rest) = listed_port v (ports_of_items rest)

  -- `_ports`
  unfoldable pub ports : Json F → List (String × Fields F)
  unfolding ports_of_fields ports_of_items
  ports (object fields) = ports_of_fields fields
  ports (array items) = ports_of_items items
  ports _ = []
