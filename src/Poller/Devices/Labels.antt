-- ===== src/Poller/Devices/Labels.antt =====
-- The labels of iter_devices on a report as the technical publication nests it: an object of domains,
-- in each an object of sites, in each the list of its device records.
use itdashboard.Prelude.{◌≡◌, refl, String, true, false, List, [], ◌∷◌, ◌++◌, All}
use itdashboard.Poller.Json.{
  Json, null, text, array, object, Items, nil, cons, Fields, end, field, Python, get, is_true,
}
use itdashboard.Poller.Devices.{
  Located, looks_like_device, located, walk, walk_fields, walk_items, iter_devices,
}

module _ {F : Type 0} where
  abbrev pub device_list : List (Fields F) → Items F
  device_list [] = nil
  device_list (d ∷ devices) = cons (object d) (device_list devices)

  abbrev pub site_fields : List (String × List (Fields F)) → Fields F
  site_fields [] = end
  site_fields ((site, devices) ∷ sites) =
      field site (array (device_list devices)) (site_fields sites)

  abbrev pub domain_fields : List (String × List (String × List (Fields F))) → Fields F
  domain_fields [] = end
  domain_fields ((domain, sites) ∷ domains) =
      field domain (object (site_fields sites)) (domain_fields domains)

  -- What a report says: each record under its domain and site.
  abbrev pub site_devices : String → String → List (Fields F) → List (Located F)
  site_devices domain site [] = []
  site_devices domain site (d ∷ devices) =
      record { domain = text domain; site = text site; device = d }
      ∷ site_devices domain site devices

  abbrev pub domain_devices : String → List (String × List (Fields F)) → List (Located F)
  domain_devices domain [] = []
  domain_devices domain ((site, devices) ∷ sites) =
      site_devices domain site devices ++ domain_devices domain sites

  abbrev pub report_devices : List (String × List (String × List (Fields F))) → List (Located F)
  report_devices [] = []
  report_devices ((domain, sites) ∷ domains) = domain_devices domain sites ++ report_devices domains

  module _ (py : Python F) where
    -- A record that is known for a device, and names no domain or site of its own.
    pub record IsPlain (d : Fields F) : Type 0 where
      pub device_like : looks_like_device d ≡ true
      pub no_Domain : is_true py (get "Domain" d) ≡ false
      pub no_domain : is_true py (get "domain" d) ≡ false
      pub no_Site : is_true py (get "Site" d) ≡ false
      pub no_site : is_true py (get "site" d) ≡ false

    -- The names of the sites of a domain do not look like a device's fields, and the records are plain.
    abbrev pub IsPlainDomain : String × List (String × List (Fields F)) → Type 0
    IsPlainDomain (domain, sites) =
        (looks_like_device (site_fields sites) ≡ false) × All (λ s. All (λ d. IsPlain d) s.1) sites

    located_plain :
        (domain site : Json F) (d : Fields F)
        → IsPlain d
        → located py domain site d ≡ record { domain = domain; site = site; device = d }
    located_plain domain site d h = rw (h.no_Domain, h.no_domain, h.no_Site, h.no_site) refl

    walk_site :
        (domain site : String) (devices : List (Fields F))
        → All (λ d. IsPlain d) devices
        → walk_items py (text domain) (text site) 2 (device_list devices)
          ≡ site_devices domain site devices
    unfolding walk
    walk_site domain site [] h = refl
    walk_site domain site (d ∷ devices) h =
        rw
          (
            h.0.device_like,
            located_plain (text domain) (text site) d h.0,
            walk_site domain site devices h.1,
          )
          refl

    walk_domain :
        (domain : String) (sites : List (String × List (Fields F)))
        → All (λ s. All (λ d. IsPlain d) s.1) sites
        → walk_fields py (text domain) null 1 (site_fields sites) ≡ domain_devices domain sites
    unfolding walk
    walk_domain domain [] h = refl
    walk_domain domain ((site, devices) ∷ sites) h =
        rw (walk_site domain site devices h.0, walk_domain domain sites h.1) refl

    walk_report :
        (domains : List (String × List (String × List (Fields F))))
        → All IsPlainDomain domains
        → walk_fields py null null 0 (domain_fields domains) ≡ report_devices domains
    unfolding walk
    walk_report [] h = refl
    walk_report ((domain, sites) ∷ domains) h =
        rw (h.0.0, walk_domain domain sites h.0.1, walk_report domains h.1) refl

    -- Of a report that nests devices in sites in domains, iter_devices gives back every device in
    -- order with the names of its domain and site, if the devices are known for devices and name
    -- no domain or site of their own, and neither the domains nor the sites of a domain look like
    -- a device.
    pub iter_devices-report :
        (domains : List (String × List (String × List (Fields F))))
        → looks_like_device (domain_fields domains) ≡ false
        → All IsPlainDomain domains
        → iter_devices py (object (domain_fields domains)) ≡ report_devices domains
    unfolding iter_devices walk
    iter_devices-report domains top h = rw (top, walk_report domains h) refl
