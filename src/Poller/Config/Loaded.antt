-- ===== src/Poller/Config/Loaded.antt =====
-- What the configuration holds after load: the file's values over the defaults.
use package.text.Mathlib.Text.{starts_with}
use itdashboard.Prelude.{
  ◌≡◌, refl, String, true, false, not, ◌&&◌, ◌||◌, some, str_eq, eq_iff, inl, inr, arith,
  if◌then◌else◌, Bool-cases,
}
use itdashboard.Poller.Json.{Json, null, Fields, end, field, get, has_key, put, merge}
use itdashboard.Poller.Config.{load, without_comments}

module _ {F : Type 0} where
  -- Each key stands once, as in a dict.
  abbrev pub IsDict : Fields F → Type 0
  IsDict end = Unit
  IsDict (field k v rest) = (has_key k rest ≡ false) × IsDict rest

  pub get-put :
      (key k : String) (v : Json F) (d : Fields F)
      → get key (put k v d) ≡ (if str_eq k key then v else get key d)
  get-put key k v end = refl
  get-put key k v (field l w d) =
      let rest = get-put key k v d in ground (arith, rest, eq_iff l k, eq_iff l key, eq_iff k key)

  has_key-put :
      (key k : String) (v : Json F) (d : Fields F)
      → has_key key (put k v d) ≡ (if str_eq k key then true else has_key key d)
  has_key-put key k v end = refl
  has_key-put key k v (field l w d) =
      ground (arith, has_key-put key k v d, eq_iff l k, eq_iff l key, eq_iff k key)

  get-merge :
      (key : String) (d e : Fields F)
      → IsDict e
      → get key (merge d e) ≡ (if has_key key e then get key e else get key d)
  get-merge key d end h = refl
  get-merge key d (field k v e) h =
      let rest = get-merge key (put k v d) e h.1 in
      let one = get-put key k v d in
      elim (Bool-cases (str_eq k key)) [
        | inl c ↦ let s = (eq_iff k key).0 c in ground (arith, rest, one, s, c, h.0)
        | inr c ↦ ground (arith, rest, one, c)
      ]

  has_key-merge :
      (key : String) (d e : Fields F) → has_key key (merge d e) ≡ (has_key key e || has_key key d)
  has_key-merge key d end = refl
  has_key-merge key d (field k v e) =
      let rest = has_key-merge key (put k v d) e in
      let one = has_key-put key k v d in ground (arith, rest, one)

  get-without_comments :
      (key : String) (e : Fields F)
      → get key (without_comments e) ≡ (if starts_with key "_" then null else get key e)
  unfolding without_comments
  get-without_comments key end = ground arith
  get-without_comments key (field k v e) =
      let rest = get-without_comments key e in ground (arith, rest, eq_iff k key)

  has_key-without_comments :
      (key : String) (e : Fields F)
      → has_key key (without_comments e) ≡ (not (starts_with key "_") && has_key key e)
  unfolding without_comments
  has_key-without_comments key end = ground arith
  has_key-without_comments key (field k v e) =
      let rest = has_key-without_comments key e in ground (arith, rest, eq_iff k key)

  without_comments-IsDict : (e : Fields F) → IsDict e → IsDict (without_comments e)
  unfolding without_comments
  without_comments-IsDict end h = tt
  without_comments-IsDict (field k v e) h =
      let rest = without_comments-IsDict e h.1 in
      let once = has_key-without_comments k e in ground (arith, rest, once)

  pub load_lem :
      (key : String) (defaults file : Fields F)
      → IsDict file
      → (let cfg = load defaults (some file) in
          let given = not (starts_with key "_") && has_key key file in
          (has_key key cfg ≡ (given || has_key key defaults))
          × (get key cfg ≡ (if given then get key file else get key defaults)))
  unfolding load
  load_lem key defaults file h =
      let e = get-merge key defaults (without_comments file) (without_comments-IsDict file h) in
      let k = has_key-merge key defaults (without_comments file) in
      let e2 = get-without_comments key file in
      let k2 = has_key-without_comments key file in ground (arith, e, k, e2, k2)
