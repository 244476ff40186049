-- ===== src/RateLimit.antt =====
-- aurweb/ratelimit.py: the requests that an address has made in its window, kept in the database.
-- A row of ApiRateLimit is deleted when its window has passed. The variant over redis is left out.
pub mod Isolation
pub mod Answers
pub mod Windows
mod Tests
use mprweb.Prelude.{
  ℕ, ◌+◌, ◌-◌, String, Bool, not, Option, none, some, List, [], ◌∷◌, ◌++◌, filter, find?,
  update_where, ltb, str_eq,
}

-- ApiRateLimit
pub record ApiRateLimit : Type 0 where
  pub ip : String
  pub requests : ℕ
  pub window_start : ℕ

-- The [ratelimit] options.
pub record Limits : Type 0 where
  pub window_length : ℕ
  pub request_limit : ℕ

abbrev pub is_host : String → ApiRateLimit → Bool
is_host host r = str_eq r.ip host

-- `WindowStart < time_to_delete`
abbrev pub is_passed : ℕ → ℕ → ApiRateLimit → Bool
is_passed window_length now r = ltb r.window_start (now - window_length)

-- The record of the host, created or incremented.
abbrev pub counted : ℕ → String → Option ApiRateLimit → ApiRateLimit
counted now host none = record { ip = host; requests = 1; window_start = now }
counted now host (some r) = record r { requests = r.requests + 1 }

abbrev pub store_count : ℕ → String → Option ApiRateLimit → List ApiRateLimit → List ApiRateLimit
store_count now host none rows = rows ++ counted now host none ∷ []
store_count now host (some r) rows =
    update_where (is_host host) (λ r. record r { requests = r.requests + 1 }) rows

-- The record that is returned, and the table.
unfoldable pub update_ratelimit_db :
    ℕ → ℕ → String → List ApiRateLimit → ApiRateLimit × List ApiRateLimit
update_ratelimit_db window_length now host rows =
    let left = filter (λ r. not (is_passed window_length now r)) rows in
    let found = find? (is_host host) left in
    (counted now host found, store_count now host found left)

-- Whether the host has exceeded its limit.
unfoldable pub check_ratelimit : Limits → ℕ → String → List ApiRateLimit → Bool × List ApiRateLimit
check_ratelimit limits now host rows =
    let (row, left) = update_ratelimit_db limits.window_length now host rows in
    (ltb limits.request_limit row.requests, left)
