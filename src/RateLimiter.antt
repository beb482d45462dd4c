-- ===== src/RateLimiter.antt =====
-- `RESTAPI_RateLimiter::IsRateLimited` of framework/RESTAPI_RateLimiter.h, for the calls of one
-- client to one path. What the cache `Poco::ExpireLRUCache` keeps between two calls is a parameter:
-- with each call comes the function that says what `get` finds of the entry that was stored last.
pub mod Window
mod Tests
use wlan_cloud_ucentralgw.Base.{
  ℕ, suc, ◌+◌, ◌-◌, Bool, true, false, Option, none, some, List, [], ◌∷◌, ltb, if◌then◌else◌,
}

pub record ClientCacheEntry : Type 0 where
  pub start : ℕ
  pub count : ℕ

-- `period` and `max_calls` are not negative, and the count stays below the bound of an `int`.
unfoldable pub is_rate_limited : ℕ → ℕ → ℕ → Option ClientCacheEntry → Bool × ClientCacheEntry
is_rate_limited period max_calls now none = (false, record { start = now; count = 1 })
is_rate_limited period max_calls now (some e) =
    if ltb (now - e.start) period
    then (ltb max_calls (e.count + 1), record { start = e.start; count = e.count + 1 })
    else (false, record { start = now; count = 1 })

abbrev pub Kept : Type 0
Kept = ClientCacheEntry → Option ClientCacheEntry

-- How many of the calls at these times are let through.
unfoldable pub granted : ℕ → ℕ → List (ℕ × Kept) → Option ClientCacheEntry → ℕ
granted period max_calls [] o = 0
granted period max_calls ((now, kept) ∷ calls) o =
    let (limited, e) = is_rate_limited period max_calls now o in
    let rest = granted period max_calls calls (kept e) in if limited then rest else suc rest
