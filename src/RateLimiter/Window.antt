-- ===== src/RateLimiter/Window.antt =====
-- How many calls framework/RESTAPI_RateLimiter.h lets through in one period.
use wlan_cloud_ucentralgw.Base.{
  ℕ, suc, ◌+◌, ◌-◌, ◌≤◌, ◌<◌, ◌≡◌, refl, ◌∙◌, true, false, Option, none, some, List, [], ◌∷◌, ltb,
  leb, if◌then◌else◌, arith, length, All,
}
use wlan_cloud_ucentralgw.RateLimiter.{ClientCacheEntry, Kept, is_rate_limited, granted}

-- A call within the period that began at `start`, after which the cache keeps the entry.
abbrev pub IsWithin : ℕ → ℕ → ℕ × Kept → Type 0
IsWithin period start (now, kept) =
    (now - start < period) × ((e : ClientCacheEntry) → kept e ≡ some e)

within-step :
    (period max_calls now : ℕ) (kept : Kept) (calls : List (ℕ × Kept)) (start count : ℕ)
    → IsWithin period start (now, kept)
    → let rest =
        granted period max_calls calls (some (record { start = start; count = count + 1 })) in
      granted period max_calls
        ((now, kept) ∷ calls)
        (some (record { start = start; count = count }))
      ≡ (if ltb max_calls (count + 1) then rest else suc rest)
unfolding granted is_rate_limited
within-step period max_calls now kept calls start count (soon, keep) =
    let next = keep (record { start = start; count = count + 1 }) in
    let e : ltb (now - start) period ≡ true = ground arith in rw (e, next) refl

granted-within :
    (period max_calls start count : ℕ) (calls : List (ℕ × Kept))
    → All (IsWithin period start) calls
    → granted period max_calls calls (some (record { start = start; count = count }))
      ≡ (if leb (length calls) (max_calls - count) then length calls else max_calls - count)
granted-within period max_calls start count [] h = unfold granted in ground arith
granted-within period max_calls start count ((now, kept) ∷ calls) (here, h) =
    let step = within-step period max_calls now kept calls start count here in
    let rest = granted-within period max_calls start (count + 1) calls h in
    step ∙ rw rest (ground arith)

-- Let a client's call come first, or after a period has gone by since its count began, and let all
-- further calls come within a period from it, with the cache keeping the client's entry. Then the
-- first call is let through, and of the others as many as make `max_calls` with it, none if
-- `max_calls` is 0.
pub granted-window :
    (period max_calls now : ℕ) (kept : Kept) (o : Option ClientCacheEntry) (calls : List (ℕ × Kept))
    → ((e : ClientCacheEntry) → o ≡ some e → period ≤ now - e.start)
    → ((e : ClientCacheEntry) → kept e ≡ some e)
    → All (IsWithin period now) calls
    → granted period max_calls ((now, kept) ∷ calls) o
      ≡ 1 + (if leb (length calls) (max_calls - 1) then length calls else max_calls - 1)
unfolding granted is_rate_limited
granted-window period max_calls now kept none calls late keep h =
    rw (keep (record { start = now; count = 1 }), granted-within period max_calls now 1 calls h)
      (omega arith)
granted-window period max_calls now kept (some e) calls late keep h =
    let old : ltb (now - e.start) period ≡ false = ground (arith, late e refl) in
    rw
      (old, keep (record { start = now; count = 1 }), granted-within period max_calls now 1 calls h)
      (omega arith)
