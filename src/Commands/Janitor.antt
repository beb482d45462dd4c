-- ===== src/Commands/Janitor.antt =====
-- The janitor, `CommandManager::onJanitorTimer` of CommandManager.cpp. Times are milliseconds of
-- one clock that does not go back.
use wlan_cloud_ucentralgw.Base.{
  ℕ, suc, ◌+◌, ◌-◌, ◌*◌, ◌<◌, ◌≤◌, ◌≡◌, refl, ap, ◌∙◌, ◌⊎◌, Bool, true, ◌&&◌, ◌||◌, Option, none,
  some, List, [], ◌∷◌, ◌++◌, ltb, ◌==◌, if◌then◌else◌, arith, inl, inr, Bool-cases,
}
use wlan_cloud_ucentralgw.Base.Dict.{Dict, find, Rising, Rising-mono}
use wlan_cloud_ucentralgw.Commands.{
  CommandInfo, is_script, is_trace, Effect, cancel_wait_file, set_command_timed_out, Manager,
}
use wlan_cloud_ucentralgw.Commands.Post.{IsGood, IsValid}

-- `delta > 10min`.
abbrev pub is_overdue : ℕ → CommandInfo → Bool
is_overdue now c = ltb (10 * 60 * 1000) (now - c.submitted)

abbrev pub waits_for_file : CommandInfo → Bool
waits_for_file c = is_script c.command && c.deferred || is_trace c.command

abbrev pub time_out : CommandInfo → List Effect
time_out c =
    if waits_for_file c
    then cancel_wait_file c.uuid ∷ set_command_timed_out c.uuid ∷ []
    else set_command_timed_out c.uuid ∷ []

unfoldable pub kept_requests : ℕ → Dict CommandInfo → Dict CommandInfo
kept_requests now [] = []
kept_requests now ((id, c) ∷ d) =
    let rest = kept_requests now d in if is_overdue now c then rest else (id, c) ∷ rest

unfoldable pub time_outs : ℕ → Dict CommandInfo → List Effect
time_outs now [] = []
time_outs now ((id, c) ∷ d) =
    let rest = time_outs now d in if is_overdue now c then time_out c ++ rest else rest

unfoldable pub on_janitor_timer : ℕ → Manager → Manager
on_janitor_timer now m = record m {
  outstanding = kept_requests now m.outstanding;
  log = m.log ++ time_outs now m.outstanding;
}

-- The effect stands in the list.
abbrev pub Logged : Effect → List Effect → Type 0
Logged e [] = ⊥
Logged e (f ∷ l) = (f ≡ e) ⊎ Logged e l

-- What the janitor makes of a lookup.
abbrev pub unless_overdue : ℕ → Option CommandInfo → Option CommandInfo
unless_overdue now none = none
unless_overdue now (some c) = if is_overdue now c then none else some c

find-above : (j n : ℕ) (d : Dict CommandInfo) → Rising n d → j < n → find j d ≡ none
unfolding find
find-above j n [] r h = refl
find-above j n ((i, c) ∷ d) r h = ground (arith, find-above j (suc i) d r.1)

find-kept :
    (now j n : ℕ) (d : Dict CommandInfo)
    → Rising n d
    → find j (kept_requests now d) ≡ unless_overdue now (find j d)
unfolding find kept_requests
find-kept now j n [] r = refl
find-kept now j n ((i, c) ∷ d) r =
    ground (arith, find-kept now j (suc i) d r.1, find-above j (suc i) d r.1)

Rising-kept : (now n : ℕ) (d : Dict CommandInfo) → Rising n d → Rising n (kept_requests now d)
unfolding kept_requests
Rising-kept now n [] r = tt
Rising-kept now n ((i, c) ∷ d) r =
    ground
      (arith, Rising-kept now (suc i) d r.1, Rising-mono {a = n} {b = suc i} (kept_requests now d))

Logged-append_right : (e : Effect) (l k : List Effect) → Logged e k → Logged e (l ++ k)
Logged-append_right e [] k h = h
Logged-append_right e (f ∷ l) k h = inr (Logged-append_right e l k h)

time_out-Logged :
    (c : CommandInfo) (k : List Effect) → Logged (set_command_timed_out c.uuid) (time_out c ++ k)
time_out-Logged c k = elim (Bool-cases (waits_for_file c)) [
  | inl e ↦ rw e (inr (inl refl))
  | inr e ↦ rw e (inl refl)
]

time_outs-Logged :
    (now j : ℕ) (c : CommandInfo) (d : Dict CommandInfo)
    → find j d ≡ some c
    → is_overdue now c ≡ true
    → Logged (set_command_timed_out c.uuid) (time_outs now d)
unfolding find time_outs
time_outs-Logged now j c [] e late = cc
time_outs-Logged now j c ((i, f) ∷ d) e late = elim (Bool-cases (i == j)) [
  | inl t ↦ let same : f ≡ c = ground arith in rw (same, late) (time_out-Logged c (time_outs now d))
  | inr t ↦
      let rest = time_outs-Logged now j c d (ground arith) late in
      elim (Bool-cases (is_overdue now f)) [
        | inl u ↦ rw u (Logged-append_right _ (time_out f) _ rest)
        | inr u ↦ rw u rest
      ]
]

janitor-find :
    (now : ℕ) (m : Manager)
    → IsValid m
    → let t = on_janitor_timer now m in
      ((j : ℕ) → find j t.outstanding ≡ unless_overdue now (find j m.outstanding)) × IsValid t
unfolding on_janitor_timer
janitor-find now m v = (
  λ j. find-kept now j 0 m.outstanding v.rising,
  record {
    rising = Rising-kept now 0 m.outstanding v.rising;
    good = λ id c e. kept id c (find id m.outstanding) refl e;
  },
)
  where
    kept :
        (id : ℕ) (c : CommandInfo) (o : Option CommandInfo)
        → find id m.outstanding ≡ o
        → find id (kept_requests now m.outstanding) ≡ some c
        → IsGood m.last_id id c
    kept id c none p e = cc (find-kept now id 0 m.outstanding v.rising, ap (unless_overdue now) p)
    kept id c (some d) p e = v.good id c (ground (arith, find-kept now id 0 m.outstanding v.rising))

janitor-tells :
    (now : ℕ) (m : Manager) (j : ℕ) (c : CommandInfo)
    → find j m.outstanding ≡ some c
    → is_overdue now c ≡ true
    → Logged (set_command_timed_out c.uuid) (on_janitor_timer now m).log
unfolding on_janitor_timer
janitor-tells now m j c e late =
    Logged-append_right _ m.log _ (time_outs-Logged now j c m.outstanding e late)

-- The janitor, on valid requests. A request that was sent more than 600000 milliseconds (ten
-- minutes) ago is taken away, and the storage is told that it has timed out; a request that was not
-- stays as it is. No request comes in under a number that has none, and the requests stay valid.
pub on_janitor_timer-cases :
    (now : ℕ) (m : Manager) (j : ℕ) (c : CommandInfo)
    → IsValid m
    → find j m.outstanding ≡ some c
    → let t = on_janitor_timer now m in
      (((c.submitted + 600000 < now)
          × (find j t.outstanding ≡ none)
          × Logged (set_command_timed_out c.uuid) t.log)
        ⊎ ((now ≤ c.submitted + 600000) × (find j t.outstanding ≡ some c)))
      × ((i : ℕ) → find i t.outstanding ≡ unless_overdue now (find i m.outstanding))
      × IsValid t
on_janitor_timer-cases now m j c v e =
    let t = on_janitor_timer now m in
    let found = (janitor-find now m v).0 j ∙ ap (unless_overdue now) e in
    let time = c.submitted in
    (
      elim (Bool-cases (is_overdue now c)) [
        | inl late ↦
            let old : time + 600000 < now = ground (arith, late) in
            let gone : find j t.outstanding ≡ none = ground (arith, found, late) in
            inl (old, gone, janitor-tells now m j c e late)
        | inr early ↦
            let young : now ≤ time + 600000 = ground (arith, early) in
            let kept : find j t.outstanding ≡ some c = ground (arith, found, early) in
            inr (young, kept)
      ],
      (janitor-find now m v).0,
      (janitor-find now m v).1,
    )
