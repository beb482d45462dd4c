-- ===== src/Destination/First.antt =====
-- Which server of its pool RADIUS_Destination.h connects to.
use wlan_cloud_ucentralgw.Base.{
  ℕ, zero, suc, ◌+◌, ◌≡◌, refl, ap, ◌∙◌, Bool, true, false, not, ◌&&◌, ◌||◌, List, [], ◌∷◌, ltb,
  ◌==◌, arith, if_elim,
}
use wlan_cloud_ucentralgw.Destination.{
  Kind, generic, radsec, globalreach, orion, unknown, Destination, Attempt, connect_servers,
  connect_secure, connect_generic, connect, since, attempt, round,
}

-- No server in front of the index accepts, and the one at the index does.
unfoldable pub is_first : List Bool → ℕ → Bool
is_first [] n = false
is_first (b ∷ accepts) zero = b
is_first (b ∷ accepts) (suc n) = not b && is_first accepts n

connect_servers-is_first :
    (accepts : List Bool) (index : ℕ)
    → (connect_servers accepts index).1 ≡ true
    → (n : ℕ) × (((connect_servers accepts index).0 ≡ n + index) × (is_first accepts n ≡ true))
unfolding connect_servers is_first
connect_servers-is_first [] index q = absurd (ground (arith, q))
connect_servers-is_first (true ∷ accepts) index q = (0, (omega arith, refl))
connect_servers-is_first (false ∷ accepts) index q =
    let (n, (e, f)) = connect_servers-is_first accepts (index + 1) q in
    (suc n, (e ∙ omega arith, f))

-- The kinds that connect over TLS.
abbrev pub is_secure : Kind → Bool
is_secure globalreach = true
is_secure orion = true
is_secure radsec = false
is_secure generic = false
is_secure unknown = false

module _ (a : Attempt) where
  -- If it is connected, then to the first server that accepts.
  abbrev IsFirst : Destination → Type 0
  IsFirst t = t.connected ≡ true → is_first a.accepts t.server_index ≡ true

  connect_secure-IsFirst : (d : Destination) → d.connected ≡ false → IsFirst (connect_secure a d).0
  unfolding connect_secure
  connect_secure-IsFirst d idle =
      if_elim {A = Destination × Bool} (λ r. IsFirst r.0) (not d.try_again)
        (λ h c. absurd (ground (arith, idle, c)))
        (λ h.
          if_elim {A = Destination × Bool} (λ r. IsFirst r.0) a.expired
            (λ i c. absurd (ground (arith, idle, c)))
            (λ i.
              if_elim {A = Destination × Bool} (λ r. IsFirst r.0) (connect_servers a.accepts 0).1
                (λ j c.
                  let (n, (e, f)) = connect_servers-is_first a.accepts 0 j in
                  ap (is_first a.accepts) (e ∙ omega arith) ∙ f)
                (λ j c. absurd (ground (arith, idle, c)))))

  connect-IsFirst :
      (d : Destination) → d.connected ≡ false → is_secure d.kind ≡ true → IsFirst (connect a d).0
  unfolding connect
  connect-IsFirst d idle q = chosen d.kind q
    where
      chosen :
          (k : Kind)
          → is_secure k ≡ true
          → IsFirst
              (elim k as (λ x. Destination × Bool) [
                | orion ↦ connect_secure a d
                | globalreach ↦ connect_secure a d
                | radsec ↦ (d, true)
                | generic ↦ connect_generic d
                | unknown ↦ connect_generic d
              ]).0
      chosen orion q = connect_secure-IsFirst d idle
      chosen globalreach q = connect_secure-IsFirst d idle
      chosen radsec q = λ c. absurd (ground (arith, idle, c))
      chosen generic q = absurd (ground (arith, q))
      chosen unknown q = absurd (ground (arith, q))

  -- When one round of the loop connects a destination over TLS that was not connected, then to the
  -- first server of its pool that accepts: that server accepts, and no server in front of it does.
  pub round-IsFirst :
      (period now : ℕ) (d : Destination)
      → is_secure d.kind ≡ true
      → d.connected ≡ false
      → (round period now a d).connected ≡ true
      → is_first a.accepts (round period now a d).server_index ≡ true
  unfolding round attempt
  round-IsFirst period now d secure idle =
      if_elim IsFirst (not d.try_again) (λ h c. absurd (ground (arith, idle, c)))
        (λ h.
          if_elim IsFirst (not d.connected)
            (λ i.
              if_elim IsFirst (d.last_try == 0 || ltb d.current_delay (since now d.last_try))
                (λ j. connect-IsFirst (record d { last_try = now }) idle secure)
                (λ j c. absurd (ground (arith, idle, c))))
            (λ i. absurd (ground (arith, idle, i))))
