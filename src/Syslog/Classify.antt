-- ===== src/Syslog/Classify.antt =====
-- syslog/classify.py, and `parse_pri` of syslog/syslog_listener.py. A rule's regular expression is a
-- test of the message: `re` searches it anywhere, ignoring case.
use itdashboard.Prelude.{
  ℕ, ◌/◌, ◌%◌, ◌<◌, ◌≡◌, refl, String, Bool, true, false, ◌&&◌, List, [], ◌∷◌, arith, str_eq, leb,
  ltb, if◌then◌else◌, length, zero, suc,
}

-- SEVERITY_RANK
abbrev ranks : List (String × ℕ)
ranks =
    ("emerg", 0)
    ∷ ("alert", 1)
    ∷ ("crit", 2)
    ∷ ("err", 3)
    ∷ ("error", 3)
    ∷ ("warning", 4)
    ∷ ("warn", 4)
    ∷ ("notice", 5)
    ∷ ("info", 6)
    ∷ ("debug", 7)
    ∷ []

rank_in : List (String × ℕ) → String → ℕ
rank_in [] severity = 6
rank_in ((s, n) ∷ rest) severity = if str_eq s severity then n else rank_in rest severity

-- `SEVERITY_RANK.get(severity, 6)`
unfoldable pub rank_of : String → ℕ
unfolding rank_in
rank_of severity = rank_in ranks severity

-- The first rule that matches gives the category.
pub record Rule : Type 0 where
  pub category : String
  pub matches : String → Bool

unfoldable pub classify : List Rule → String → String
classify [] message = "other"
classify (r ∷ rules) message = if r.matches message then r.category else classify rules message

unfoldable pub is_noise : String → String → Bool
unfolding rank_of
is_noise severity category =
    let rank = rank_of severity in
    if leb 7 rank then true else if leb 6 rank && str_eq category "other" then true else false

abbrev severities : List String
severities = "emerg" ∷ "alert" ∷ "crit" ∷ "err" ∷ "warning" ∷ "notice" ∷ "info" ∷ "debug" ∷ []

abbrev facilities : List String
facilities =
    "kern" ∷ "user" ∷ "mail" ∷ "daemon" ∷ "auth" ∷ "syslog" ∷ "lpr" ∷ "news" ∷ "uucp" ∷ "cron"
    ∷ "authpriv" ∷ "ftp" ∷ "ntp" ∷ "audit" ∷ "alert" ∷ "clock" ∷ "local0" ∷ "local1" ∷ "local2"
    ∷ "local3" ∷ "local4" ∷ "local5" ∷ "local6" ∷ "local7" ∷ []

-- `l[i]`, where the index is in range.
at : List String → ℕ → String
at [] i = ""
at (x ∷ xs) zero = x
at (x ∷ xs) (suc i) = at xs i

-- (facility, severity): `pri >> 3` and `pri & 0x07`.
unfoldable pub parse_pri : ℕ → String × String
unfolding at
parse_pri pri =
    let code = pri / 8 in
    (
      if ltb code (length facilities) then at facilities code else "unknown",
      at severities (pri % 8),
    )

-- The severity code of a message, read back from its name.
severity_code : (n : ℕ) → n < 8 → rank_of (at severities n) ≡ n
unfolding rank_of at
severity_code zero h = refl
severity_code (suc zero) h = refl
severity_code (suc (suc zero)) h = refl
severity_code (suc (suc (suc zero))) h = refl
severity_code (suc (suc (suc (suc zero)))) h = refl
severity_code (suc (suc (suc (suc (suc zero))))) h = refl
severity_code (suc (suc (suc (suc (suc (suc zero)))))) h = refl
severity_code (suc (suc (suc (suc (suc (suc (suc zero))))))) h = refl
severity_code (suc (suc (suc (suc (suc (suc (suc (suc n)))))))) h = absurd (omega arith)

-- The severity that parse_pri names has, as a rank of the aggregator, the code in the low three
-- bits of the priority.
pub rank_of-parse_pri : (pri : ℕ) → rank_of (parse_pri pri).1 ≡ pri % 8
unfolding parse_pri
rank_of-parse_pri pri = severity_code (pri % 8) (omega arith)
