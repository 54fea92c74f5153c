-- ===== src/Poller/Json.antt =====
-- JSON as Python's json reads it, and what the poller does with values of any type. The numbers,
-- and the functions on texts and numbers that stand in Python's library, are a record of arguments.
use itdashboard.Prelude.{
  ℕ, String, Bool, true, false, not, Option, List, [], ◌∷◌, str_eq, if◌then◌else◌,
}
use itdashboard.Text.{truthy}

mutual
  pub data Json (F : Type 0) : Type 0 where
    null : Json F
    bool : Bool → Json F
    number : F → Json F
    text : String → Json F
    array : Items F → Json F
    object : Fields F → Json F

  pub data Items (F : Type 0) : Type 0 where
    nil : Items F
    cons : Json F → Items F → Items F

  pub data Fields (F : Type 0) : Type 0 where
    end : Fields F
    field : String → Json F → Fields F → Fields F

-- `below` is < and `at_least` is >=, both false of a NaN; `natural` is int of a positive number, with
-- None for OverflowError; `number_of_text` is float(s.strip().rstrip("Cc").strip()), with None for
-- ValueError; `whole` and `tenths` are the formats .0f and .1f; `repr` is str of a number, an array or
-- an object.
pub record Python (F : Type 0) : Type 0 where
  pub zero : F
  pub is_zero : F → Bool
  pub is_one : F → Bool
  pub natural : F → Option ℕ
  pub below : F → F → Bool
  pub at_least : F → F → Bool
  pub minus : F → F → F
  pub whole : F → String
  pub tenths : F → String
  pub repr : Json F → String
  pub number_of_text : String → Option F
  pub strip : String → String
  pub lower : String → String
  pub upper : String → String
  pub contains : String → String → Bool

module _ {F : Type 0} where
  -- `d.get(key)`, with None for a missing key, and `key in d`.
  abbrev pub get : String → Fields F → Json F
  get key end = null
  get key (field k v rest) = if str_eq k key then v else get key rest

  abbrev pub has_key : String → Fields F → Bool
  has_key key end = false
  has_key key (field k v rest) = if str_eq k key then true else has_key key rest

  -- A dict as it is written: its entries in order.
  abbrev pub dict : List (String × Json F) → Fields F
  dict [] = end
  dict ((k, v) ∷ rest) = field k v (dict rest)

  -- `d[key] = v`, which keeps the place of a key that is there.
  abbrev pub put : String → Json F → Fields F → Fields F
  put key v end = field key v end
  put key v (field k w rest) = if str_eq k key then field k v rest else field k w (put key v rest)

  -- `{**d, **e}`
  abbrev pub merge : Fields F → Fields F → Fields F
  merge d end = d
  merge d (field k v rest) = merge (put k v d) rest

  abbrev pub is_null : Json F → Bool
  is_null null = true
  is_null _ = false

  abbrev pub is_text : String → Json F → Bool
  is_text t (text s) = str_eq s t
  is_text t _ = false

  module _ (py : Python F) where
    -- `str(v)`
    unfoldable pub str : Json F → String
    str null = "None"
    str (bool true) = "True"
    str (bool false) = "False"
    str (text s) = s
    str v = py.repr v

    -- `bool(v)`
    abbrev pub is_true : Json F → Bool
    is_true null = false
    is_true (bool b) = b
    is_true (number n) = not (py.is_zero n)
    is_true (text s) = truthy s
    is_true (array nil) = false
    is_true (array (cons x rest)) = true
    is_true (object end) = false
    is_true (object (field k v rest)) = true

    -- `v == 0`: False is 0 too.
    abbrev pub equals_zero : Json F → Bool
    equals_zero (number n) = py.is_zero n
    equals_zero (bool b) = not b
    equals_zero _ = false

    -- `a or b`
    abbrev pub or_json : Json F → Json F → Json F
    or_json a b = if is_true a then a else b
