-- ===== src/Poller/Devices.antt =====
-- The shape helpers of poller/sdlan_client.py: the device records of a networks response, however
-- it is nested, and the entries of a status response's list of problems. A response is read from
-- JSON, so that no two of its records are one object, and `seen` of iter_devices skips none.
pub mod Inside
pub mod Walk
pub mod Labels
use itdashboard.Prelude.{
  ℕ, ◌+◌, String, Bool, true, false, List, [], ◌∷◌, ◌++◌, leb, ltb, ◌||◌, if◌then◌else◌, count,
}
use itdashboard.Poller.Json.{
  Json, null, bool, number, text, array, object, Items, nil, cons, Fields, end, field, Python, get,
  has_key, is_null, is_text, or_json, str, dict,
}

abbrev pub device_markers : List String
device_markers = "dev_id" ∷ "hw_ident" ∷ "hw_hostname" ∷ "endpoint_name" ∷ "hw_sn" ∷ []

-- A device as it is yielded: its domain, its site, its record.
pub record Located (F : Type 0) : Type 0 where
  pub domain : Json F
  pub site : Json F
  pub device : Fields F

module _ {F : Type 0} where
  abbrev pub looks_like_device : Fields F → Bool
  looks_like_device d = leb 2 (count (λ k. has_key k d) device_markers)

  -- `isinstance(v, (dict, list))`
  abbrev pub is_container : Json F → Bool
  is_container (array items) = true
  is_container (object fields) = true
  is_container v = false

  -- A key that is walked through names the domain, and after it the site.
  abbrev pub domain_under : String → Json F → Json F
  domain_under k domain = if is_null domain then text k else domain

  abbrev pub site_under : String → Json F → Json F → Json F
  site_under k domain site = if is_null domain then site else if is_null site then text k else site

  module _ (py : Python F) where
    abbrev pub located : Json F → Json F → Fields F → Located F
    located domain site d = record {
      domain = or_json py (get "Domain" d) (or_json py (get "domain" d) domain);
      site = or_json py (get "Site" d) (or_json py (get "site" d) site);
      device = d;
    }

    unfoldable mutual
      pub walk : Json F → Json F → ℕ → Json F → List (Located F)
      walk domain site depth (object d) =
          let below = walk_fields domain site depth d in
          if ltb 8 depth
          then []
          else if looks_like_device d
          then located domain site d ∷ []
          else below
      walk domain site depth (array items) =
          let below = walk_items domain site depth items in if ltb 8 depth then [] else below
      walk domain site depth v = []

      pub walk_fields : Json F → Json F → ℕ → Fields F → List (Located F)
      walk_fields domain site depth end = []
      walk_fields domain site depth (field k v rest) =
          let under = walk (domain_under k domain) (site_under k domain site) (depth + 1) v in
          let others = walk_fields domain site depth rest in
          if is_container v then under ++ others else others

      pub walk_items : Json F → Json F → ℕ → Items F → List (Located F)
      walk_items domain site depth nil = []
      walk_items domain site depth (cons v rest) =
          walk domain site (depth + 1) v ++ walk_items domain site depth rest

    unfoldable pub iter_devices : Json F → List (Located F)
    unfolding walk
    iter_devices networks_response = walk null null 0 networks_response

    -- `list(problems.values())`
    abbrev values : Fields F → Items F
    values end = nil
    values (field k v rest) = cons v (values rest)

    -- What an entry of the problems yields.
    abbrev pub problem : Json F → List (Fields F)
    problem (object p) = p ∷ []
    problem v =
        if is_null v || is_text "" v then [] else dict (("message", text (str py v)) ∷ []) ∷ []

    unfoldable pub problems_of : Items F → List (Fields F)
    unfolding str
    problems_of nil = []
    problems_of (cons p rest) = problem p ++ problems_of rest

    abbrev listed : Json F → List (Fields F)
    listed (object entries) = problems_of (values entries)
    listed (array items) = problems_of items
    listed v = []

    unfoldable pub iter_problems : Json F → List (Fields F)
    unfolding problems_of
    iter_problems (object response) = listed (get "problems" response)
    iter_problems v = []
