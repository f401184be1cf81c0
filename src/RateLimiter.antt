-- ===== src/RateLimiter.antt =====
-- internal/middleware/api_key_rate_limiter.go: at most so many requests of an API key in a window
-- of one minute. Times are nanoseconds; within a process they do not go back.
pub mod Window
pub mod Cleanup
mod Tests
use bytevault.Prelude.{
  ℕ, suc, ◌+◌, ◌-◌, ◌*◌, ◌/◌, Bool, true, false, Option, none, some, ltb, leb, ◌==◌, if◌then◌else◌,
}
use bytevault.Prelude.Int.{ℤ, pos, negsuc}

pub record Entry : Type 0 where
  pub count : ℕ
  pub window_start : ℕ

-- The map of the limiter, by key.
abbrev pub Entries : Type 0
Entries = ℕ → Option Entry

abbrev pub set_entry : Entries → ℕ → Option Entry → Entries
set_entry l k e j = if j == k then e else l j

pub record Response : Type 0 where
  pub allowed : Bool
  pub remaining : ℕ
  pub retry_after : ℕ

abbrev pub second : ℕ
second = 1_000_000_000

abbrev pub minute : ℕ
minute = 60_000_000_000

-- The limit of a key that has none.
unfoldable pub limit_or_default : ℤ → ℕ
limit_or_default (pos n) = if ltb 0 n then n else 60
limit_or_default (negsuc n) = 60

abbrev at_least_one : ℕ → ℕ
at_least_one n = if ltb n 1 then 1 else n

unfoldable pub allow_entry : Option Entry → ℕ → ℕ → Entry × Response
allow_entry none now limit = (
  record { count = 1; window_start = now },
  record { allowed = true; remaining = limit - 1; retry_after = minute / second },
)
allow_entry (some e) now limit =
    let elapsed = now - e.window_start in
    let wait = at_least_one ((minute - elapsed) / second) in
    if leb minute elapsed
    then (
      record { count = 1; window_start = now },
      record { allowed = true; remaining = limit - 1; retry_after = minute / second },
    )
    else if leb limit e.count
    then (e, record { allowed = false; remaining = 0; retry_after = wait })
    else (
      record e { count = e.count + 1 },
      record { allowed = true; remaining = limit - (e.count + 1); retry_after = wait },
    )

-- `Allow`
pub allow : Entries → ℕ → ℕ → ℤ → Entries × Response
unfolding allow_entry
allow l now key limit =
    let (e, r) = allow_entry (l key) now (limit_or_default limit) in (set_entry l key (some e), r)

stale : ℕ → Option Entry → Bool
stale now none = false
stale now (some e) = ltb (e.window_start + 2 * minute) now

-- `cleanup`: drops the windows that opened more than two minutes ago.
pub cleanup : Entries → ℕ → Entries
unfolding stale
cleanup l now k = if stale now (l k) then none else l k
