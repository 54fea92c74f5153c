-- ===== src/Syslog/Device.antt =====
-- The data of syslog/aggregator.py: the state of a device, its window of events and its cache of
-- repetitions, and `_evict_old`. Times are microseconds of the clock; where the source compares a
-- difference of times, the sum is compared, so that no subtraction is cut at 0.
pub mod Window
use itdashboard.Prelude.{
  ℕ, ◌+◌, ◌*◌, String, Bool, Option, none, some, List, [], ◌∷◌, str_eq, ltb, if◌then◌else◌, select,
}
use itdashboard.Status.{Status, unknown}

-- A second, in the clock's unit.
abbrev pub second : ℕ
second = 1000000

pub record Config : Type 0 where
  pub window_seconds : ℕ
  pub stale_threshold_seconds : ℕ

-- (now, severity, category, message)
pub record Event : Type 0 where
  pub ts : ℕ
  pub severity : String
  pub category : String
  pub message : String

-- signature, (count, first time)
abbrev pub Cache : Type 0
Cache = List (String × (ℕ × ℕ))

pub record DeviceState : Type 0 where
  pub device_id : String
  pub device_name : String
  pub device_class : String
  pub vendor : String
  pub site : String
  pub events : List Event
  pub last_seen : ℕ
  pub last_status : Status
  pub dedup_cache : Cache

-- `device_meta`: the keys that may be missing are options.
pub record Meta : Type 0 where
  pub device_id : String
  pub device_name : Option String
  pub device_class : Option String
  pub vendor : Option String
  pub site : Option String

abbrev pub or_default : Option String → String → String
or_default none d = d
or_default (some s) d = s

unfoldable pub new_device : Meta → DeviceState
new_device m = record {
  device_id = m.device_id;
  device_name = or_default m.device_name m.device_id;
  device_class = or_default m.device_class "unknown";
  vendor = or_default m.vendor "unknown";
  site = or_default m.site "unknown";
  events = [];
  last_seen = 0;
  last_status = unknown;
  dedup_cache = [];
}

-- `now - t < 60`
abbrev pub recent : ℕ → ℕ → Bool
recent now t = ltb now (t + 60 * second)

-- `dedup_cache.get(sig, (0, now))`
unfoldable pub cached : ℕ → String → Cache → ℕ × ℕ
cached now sig [] = (0, now)
cached now sig ((s, e) ∷ rest) = if str_eq s sig then e else cached now sig rest

-- `dedup_cache[sig] = entry`
unfoldable pub put_cache : String → ℕ × ℕ → Cache → Cache
put_cache sig entry [] = (sig, entry) ∷ []
put_cache sig entry ((s, e) ∷ rest) =
    let others = put_cache sig entry rest in
    if str_eq s sig then (s, entry) ∷ rest else (s, e) ∷ others

-- The loop of `_evict_old`: events older than the window leave at the left, up to the first that is
-- not.
unfoldable pub drop_old : ℕ → ℕ → List Event → List Event
drop_old window now [] = []
drop_old window now (e ∷ events) =
    let rest = drop_old window now events in if ltb (e.ts + window) now then rest else e ∷ events

abbrev pub entry_recent : ℕ → String × (ℕ × ℕ) → Bool
entry_recent now e = recent now e.1.1

unfoldable pub evict_old : Config → ℕ → DeviceState → DeviceState
unfolding drop_old
evict_old cfg now state = record state {
  events = drop_old (cfg.window_seconds * second) now state.events;
  dedup_cache = select (entry_recent now) state.dedup_cache;
}
