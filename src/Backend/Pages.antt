-- ===== src/Backend/Pages.antt =====
-- The listings of backend/app/repositories/alerts.py by pages: `list` and `list_by_property`. The
-- joined columns are left out. How PostgreSQL compares two ids is an argument, `below`; what
-- a cursor is, is an argument too, which Backend.Cursor fills.
pub mod Traversal
use itdashboard.Prelude.{
  ℕ, suc, ◌+◌, ◌≡◌, String, Bool, true, false, not, ◌&&◌, ◌||◌, Option, none, some, List, [], ◌∷◌,
  ◌++◌, zero, str_eq, ltb, ◌==◌, if◌then◌else◌, take, length, select,
}
use itdashboard.Table.Rank.{rank_by}
use itdashboard.Backend.Database.{
  Severity, p1, p2, p3, p4, AlertState, opened, triaged, acting, resolved, Alert,
}

-- `_SEV_RANK` and `_SEV_TO_INT`
abbrev pub sev_rank : Severity → ℕ
sev_rank p1 = 1
sev_rank p2 = 2
sev_rank p3 = 3
sev_rank p4 = 4

abbrev pub state_eq : AlertState → AlertState → Bool
state_eq opened opened = true
state_eq triaged triaged = true
state_eq acting acting = true
state_eq resolved resolved = true
state_eq _ _ = false

-- `state = ANY(states)`
unfoldable pub any_state : List AlertState → AlertState → Bool
any_state [] s = false
any_state (t ∷ states) s = if state_eq t s then true else any_state states s

abbrev pub Key : Type 0
Key = ℕ × ℕ × String

abbrev pub key_of : Alert → Key
key_of r = (sev_rank r.severity, r.opened_at, r.alert_id)

-- What a listing asks of the cursors: Backend.Cursor makes them as lib/cursor.py does.
pub record Codec {ℓ} (Cursor : Type ℓ) : Type ℓ where
  pub encode : Key → Cursor
  pub decode : Cursor → Key
  pub decode-encode : (k : Key) → decode (encode k) ≡ k

pub record Page {ℓ} (Cursor : Type ℓ) : Type ℓ where
  pub items : List Alert
  pub next_cursor : Option Cursor
  pub has_more : Bool

abbrev pub last_of : List Alert → Option Alert
last_of [] = none
last_of (r ∷ []) = some r
last_of (r ∷ s ∷ rows) = last_of (s ∷ rows)

abbrev pub cursor_of {ℓ} : {Cursor : Type ℓ} → Codec Cursor → Option Alert → Option Cursor
cursor_of codec none = none
cursor_of codec (some r) = some (codec.encode (key_of r))

-- The page that is made of the rows that were fetched, at most one more than `limit`.
abbrev pub page_of {ℓ} : {Cursor : Type ℓ} → Codec Cursor → ℕ → List Alert → Page Cursor
page_of codec limit rows =
    let more = ltb limit (length rows) in
    record {
      items = take limit rows;
      next_cursor = if more then cursor_of codec (last_of (take limit rows)) else none;
      has_more = more;
    }

module _ (below : String → String → Bool) where
  -- The cursor's clause: the row stands behind the cursor. It is also when a row stands behind
  -- another one by `ORDER BY rank ASC, opened_at DESC, alert_id DESC`.
  abbrev pub behind : Key → Alert → Bool
  behind (rank, opened_at, alert_id) r =
      ltb rank (sev_rank r.severity)
      || (sev_rank r.severity == rank && ltb r.opened_at opened_at)
      || (sev_rank r.severity == rank && r.opened_at == opened_at && below r.alert_id alert_id)

  abbrev pub before : Alert → Alert → Bool
  before r s = behind (key_of r) s

  module _ {ℓ} {Cursor : Type ℓ} (codec : Codec Cursor) where
    abbrev pub after : Option Cursor → Alert → Bool
    after none r = true
    after (some c) r = behind (codec.decode c) r

    -- The rows that `matches` are those of the WHERE clause but for the cursor.
    unfoldable pub page : (Alert → Bool) → ℕ → Option Cursor → List Alert → Page Cursor
    unfolding rank_by
    page matches limit cursor rows =
        page_of codec limit
          (take (suc limit) (rank_by before (select (λ r. matches r && after cursor r) rows)))

    unfoldable pub list : String → List AlertState → ℕ → Option Cursor → List Alert → Page Cursor
    unfolding any_state page
    list provider_id states =
        page (λ r. str_eq r.provider_id provider_id && any_state states r.state)

    unfoldable pub list_by_property :
        String → String → List AlertState → ℕ → Option Cursor → List Alert → Page Cursor
    unfolding any_state page
    list_by_property provider_id property_id states = page (λ r.
        str_eq r.provider_id provider_id
        && str_eq r.property_id property_id
        && any_state states r.state)

-- A client that asks for page after page, until there are no more: what it has read, none if it
-- asks more than `fuel` times.
abbrev pub append_to : List Alert → Option (List Alert) → Option (List Alert)
append_to items none = none
append_to items (some rest) = some (items ++ rest)

unfoldable pub read_all {ℓ} :
    {Cursor : Type ℓ} → (Option Cursor → Page Cursor) → ℕ → Option Cursor → Option (List Alert)
read_all ask zero cursor = none
read_all ask (suc fuel) cursor =
    let p = ask cursor in
    let rest = read_all ask fuel p.next_cursor in
    if p.has_more then append_to p.items rest else some p.items
