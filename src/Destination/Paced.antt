-- ===== src/Destination/Paced.antt =====
-- How often RADIUS_Destination.h tries to connect, and to which server.
use mathlib.Core.Path.{subst}
use wlan_cloud_ucentralgw.Base.{
  ℕ, ◌≤◌, ◌<◌, ◌≡◌, ◌≢◌, ◌⊎◌, inl, inr, Bool-cases, refl, sym, ap, ◌∙◌, Bool, true, false, not,
  ◌&&◌, ◌||◌, List, [], ◌∷◌, ltb, ◌==◌, arith, if_elim,
}
use wlan_cloud_ucentralgw.Destination.{
  Kind, generic, radsec, globalreach, orion, unknown, Destination, Attempt, connect_servers,
  connect_secure, connect_generic, connect, since, next_delay, attempt, keep_alive, round,
  disconnect, stop, send_data,
}

abbrev pub is_radsec : Kind → Bool
is_radsec radsec = true
is_radsec generic = false
is_radsec globalreach = false
is_radsec orion = false
is_radsec unknown = false

-- The delays that a failure leads to, each twice the one before.
abbrev pub is_delay : ℕ → Bool
is_delay n = n == 10 || (n == 20 || (n == 40 || (n == 80 || n == 160)))

pub record IsPaced (d : Destination) : Type 0 where
  pub delay : is_delay d.current_delay ≡ true
  pub radsec_idle : is_radsec d.kind ≡ true → (d.connected ≡ false) × (d.sent ≡ [])

pub data Step : Type 0 where
  rounds : ℕ → ℕ → Attempt → Step
  disconnects stops : Step
  sends : (List ℕ → Bool) → (List ℕ → List ℕ) → ℕ → List ℕ → Step

unfoldable pub step : Step → Destination → Destination
step (rounds period now a) d = round period now a d
step disconnects d = disconnect d
step stops d = stop d
step (sends verify sign taken bytes) d = (send_data verify sign taken bytes d).0

unfoldable pub run : List Step → Destination → Destination
run [] d = d
run (x ∷ steps) d = run steps (step x d)

-- What connecting leaves alone.
record IsTried (d t : Destination) : Type 0 where
  kind : t.kind ≡ d.kind
  delay : t.current_delay ≡ d.current_delay
  sent : t.sent ≡ d.sent
  last_try : t.last_try ≡ d.last_try
  radsec_idle : is_radsec d.kind ≡ true → t.connected ≡ d.connected

connect_secure-IsTried :
    (a : Attempt) (d : Destination) → is_radsec d.kind ≡ false → IsTried d (connect_secure a d).0
unfolding connect_secure
connect_secure-IsTried a d q =
    if_elim {A = Destination × Bool} (λ r. IsTried d r.0) (not d.try_again)
      (λ h. record {
        kind = refl;
        delay = refl;
        sent = refl;
        last_try = refl;
        radsec_idle = λ i. refl;
      })
      (λ h.
        if_elim {A = Destination × Bool} (λ r. IsTried d r.0) a.expired
          (λ i. record {
            kind = refl;
            delay = refl;
            sent = refl;
            last_try = refl;
            radsec_idle = λ j. refl;
          })
          (λ i.
            if_elim {A = Destination × Bool} (λ r. IsTried d r.0) (connect_servers a.accepts 0).1
              (λ j. record {
                kind = refl;
                delay = refl;
                sent = refl;
                last_try = refl;
                radsec_idle = λ k. absurd (ground (arith, q, k));
              })
              (λ j. record {
                kind = refl;
                delay = refl;
                sent = refl;
                last_try = refl;
                radsec_idle = λ k. refl;
              })))

connect_generic-IsTried :
    (d : Destination) → is_radsec d.kind ≡ false → IsTried d (connect_generic d).0
unfolding connect_generic
connect_generic-IsTried d q =
    if_elim {A = Destination × Bool} (λ r. IsTried d r.0) (d.try_again && not d.connected)
      (λ h. record {
        kind = refl;
        delay = refl;
        sent = refl;
        last_try = refl;
        radsec_idle = λ i. absurd (ground (arith, q, i));
      })
      (λ h. record {
        kind = refl;
        delay = refl;
        sent = refl;
        last_try = refl;
        radsec_idle = λ i. refl;
      })

connect-IsTried : (a : Attempt) (d : Destination) → IsTried d (connect a d).0
unfolding connect
connect-IsTried a d = tried d.kind refl
  where
    tried :
        (k : Kind)
        → is_radsec d.kind ≡ is_radsec k
        → IsTried d
            (elim k as (λ x. Destination × Bool) [
              | orion ↦ connect_secure a d
              | globalreach ↦ connect_secure a d
              | radsec ↦ (d, true)
              | generic ↦ connect_generic d
              | unknown ↦ connect_generic d
            ]).0
    tried generic q = connect_generic-IsTried d q
    tried unknown q = connect_generic-IsTried d q
    tried orion q = connect_secure-IsTried a d q
    tried globalreach q = connect_secure-IsTried a d q
    tried radsec q = record {
      kind = refl;
      delay = refl;
      sent = refl;
      last_try = refl;
      radsec_idle = λ i. refl;
    }

next_delay-delay : (good : Bool) (n : ℕ) → is_delay n ≡ true → is_delay (next_delay good n) ≡ true
next_delay-delay true n q = refl
next_delay-delay false n q = ground (arith, q)

attempt-IsPaced : (now : ℕ) (a : Attempt) (d : Destination) → IsPaced d → IsPaced (attempt now a d)
unfolding attempt
attempt-IsPaced now a d v =
    let e : Destination = record d { last_try = now } in
    let t = connect-IsTried a e in
    record {
      delay =
          next_delay-delay (connect a e).1 (connect a e).0.current_delay
            (ap is_delay t.delay ∙ v.delay);
      radsec_idle = λ h.
          let k = sym (ap is_radsec t.kind) ∙ h in
          (t.radsec_idle k ∙ (v.radsec_idle k).0, t.sent ∙ (v.radsec_idle k).1);
    }

disconnect-IsPaced : (d : Destination) → IsPaced d → IsPaced (disconnect d)
unfolding disconnect
disconnect-IsPaced d v =
    if_elim IsPaced d.connected
      (λ q. record { delay = v.delay; radsec_idle = λ h. (refl, (v.radsec_idle h).1) }) (λ q. v)

send_data-IsPaced :
    (verify : List ℕ → Bool) (sign : List ℕ → List ℕ) (taken : ℕ) (bytes : List ℕ) (d : Destination)
    → IsPaced d
    → IsPaced (send_data verify sign taken bytes d).0
unfolding send_data
send_data-IsPaced verify sign taken bytes d v =
    if_elim {A = Destination × Bool} (λ r. IsPaced r.0) d.connected
      (λ q. record {
        delay = v.delay;
        radsec_idle = λ h. absurd (ground (arith, q, (v.radsec_idle h).0));
      })
      (λ q. v)

step-IsPaced : (x : Step) (d : Destination) → IsPaced d → IsPaced (step x d)
unfolding step round keep_alive stop
step-IsPaced (rounds period now a) d v =
    if_elim IsPaced (not d.try_again) (λ q. v)
      (λ q.
        if_elim IsPaced (not d.connected)
          (λ h.
            if_elim IsPaced (d.last_try == 0 || ltb d.current_delay (since now d.last_try))
              (λ i. attempt-IsPaced now a d v) (λ i. v))
          (λ h.
            if_elim IsPaced (ltb period (since now d.last_keep_alive))
              (λ i. record { delay = v.delay; radsec_idle = v.radsec_idle }) (λ i. v)))
step-IsPaced disconnects d v = disconnect-IsPaced d v
step-IsPaced stops d v =
    disconnect-IsPaced (record d { try_again = false })
      (record { delay = v.delay; radsec_idle = v.radsec_idle })
step-IsPaced (sends verify sign taken bytes) d v = send_data-IsPaced verify sign taken bytes d v

run-IsPaced : (steps : List Step) (d : Destination) → IsPaced d → IsPaced (run steps d)
unfolding run
run-IsPaced [] d v = v
run-IsPaced (x ∷ steps) d v = run-IsPaced steps (step x d) (step-IsPaced x d v)

attempt-last_try : (now : ℕ) (a : Attempt) (d : Destination) → (attempt now a d).last_try ≡ now
unfolding attempt
attempt-last_try now a d = (connect-IsTried a (record d { last_try = now })).last_try

round-paces :
    (period now : ℕ) (a : Attempt) (t : Destination)
    → IsPaced t
    → t.try_again ≡ true
    → t.connected ≡ false
    → t.last_try ≢ 0
    → ((since now t.last_try ≤ t.current_delay) × (round period now a t ≡ t))
      ⊎ ((t.current_delay < since now t.last_try)
          × (round period now a t ≡ attempt now a t)
          × ((round period now a t).last_try ≡ now)
          × IsPaced (round period now a t))
round-paces period now a t paced on off tried =
    let wait = t.current_delay in
    let passed = since now t.last_try in
    let before : (t.last_try == 0) ≡ false = ground (arith, tried) in
    elim (Bool-cases (ltb wait passed)) [
      | inl late ↦
          let over : wait < passed = ground (arith, late) in
          let tries : round period now a t ≡ attempt now a t =
            unfold round in ground (arith, on, off, before, late) in
          inr (
            over,
            tries,
            ap (λ r. r.last_try) tries ∙ attempt-last_try now a t,
            subst IsPaced (sym tries) (attempt-IsPaced now a t paced),
          )
      | inr early ↦
          let within : passed ≤ wait = ground (arith, early) in
          let same : round period now a t ≡ t =
            unfold round in ground (arith, on, off, before, early) in
          inl (within, same)
    ]

-- Whatever servers accept and whatever ends connections, from a state in which it holds: the delay
-- is 10, 20, 40, 80 or 160 seconds; a destination of the kind `radsec` is never connected, and
-- nothing is ever sent to it. Let the destination be unconnected then, not stopped, and tried
-- before. A round at a time at most the delay after the last attempt changes nothing; a round later
-- than that makes an attempt, which is the last one from then on, and the delay that follows is
-- again one of the five. (The time since the last attempt is the difference in 64 bits.)
pub run-paces :
    (steps : List Step) (d : Destination) (period now : ℕ) (a : Attempt)
    → IsPaced d
    → let t = run steps d in
      t.try_again ≡ true
      → t.connected ≡ false
      → t.last_try ≢ 0
      → IsPaced t
        × (((since now t.last_try ≤ t.current_delay) × (round period now a t ≡ t))
            ⊎ ((t.current_delay < since now t.last_try)
                × (round period now a t ≡ attempt now a t)
                × ((round period now a t).last_try ≡ now)
                × IsPaced (round period now a t)))
run-paces steps d period now a v on off tried =
    let paced = run-IsPaced steps d v in
    (paced, round-paces period now a (run steps d) paced on off tried)
