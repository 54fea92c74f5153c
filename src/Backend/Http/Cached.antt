-- ===== src/Backend/Http/Cached.antt =====
-- What a client that sends back its tag is answered.
use itdashboard.Prelude.{
  ◌≡◌, ◌↔◌, refl, String, true, false, inl, inr, Option, none, some, arith, str_eq, eq_iff,
  Bool-cases,
}
use itdashboard.Backend.Http.{Response, is_tagged, etag_of, dispatch}

module _ (sha1 : String → String) (method path : String) where
  untagged_kept :
      (if_none_match : Option String) (r : Response)
      → is_tagged method path r ≡ false
      → dispatch sha1 method path if_none_match r ≡ r
  unfolding dispatch
  untagged_kept t r h = rw h refl

  tagged_first :
      (r : Response)
      → is_tagged method path r ≡ true
      → (let first = dispatch sha1 method path none r in
          (first.body ≡ r.body) × (first.etag ≡ some (etag_of sha1 r.body)))
  unfolding dispatch
  tagged_first r h = rw h (refl, refl)

  tagged_again :
      (tag : String) (r : Response)
      → is_tagged method path r ≡ true
      → (let again = dispatch sha1 method path (some tag) r in
          ((again.status_code ≡ 304) ↔ (tag ≡ etag_of sha1 r.body))
          × (again.status_code ≡ 200 → again.body ≡ r.body))
  unfolding dispatch
  tagged_again tag r h =
      let ok : r.status_code ≡ 200 = ground (arith, h) in
      elim (Bool-cases (str_eq tag (etag_of sha1 r.body))) [
        | inl e ↦
            let same = (eq_iff tag (etag_of sha1 r.body)).0 e in
            rw (h, e) ((λ k. same, λ k. refl), λ k. ground (arith, k))
        | inr e ↦
            rw (h, e)
              (
                (
                  λ k. ground (arith, k, ok),
                  λ k. ground (arith, e, eq_iff tag (etag_of sha1 r.body), k),
                ),
                λ k. refl,
              )
      ]

  -- A client that asks again with the tag of an earlier response, both of them successful and of a
  -- path and method that are tagged, is answered 304 exactly if the tags of both bodies are the
  -- same, and when it is answered 200 it gets the body of the new response.
  pub dispatch_lem :
      (r s : Response)
      → is_tagged method path r ≡ true
      → is_tagged method path s ≡ true
      → (let first = dispatch sha1 method path none r in
          let again = dispatch sha1 method path first.etag s in
          (first.body ≡ r.body)
          × ((again.status_code ≡ 304) ↔ (etag_of sha1 r.body ≡ etag_of sha1 s.body))
          × (again.status_code ≡ 200 → again.body ≡ s.body))
  dispatch_lem r s hr hs =
      let (body, tag) = tagged_first r hr in
      rw tag (
        body,
        (tagged_again (etag_of sha1 r.body) s hs).0,
        (tagged_again (etag_of sha1 r.body) s hs).1,
      )
