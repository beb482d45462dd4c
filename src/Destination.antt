-- ===== src/Destination.antt =====
-- The connection to the servers of one RADIUS pool, RADIUS_Destination.h: the loop that connects
-- again and again, waiting longer after each failure, and what ends a connection.
-- Which servers accept a connection, and whether the certificate has expired, is a parameter of each
-- attempt. What `Connect` reads from the configuration is taken as readable.
pub mod Paced
pub mod First
mod Tests
use wlan_cloud_ucentralgw.Base.{
  ℕ, suc, ◌+◌, ◌-◌, ◌*◌, ◌%◌, ◌^◌, Bool, true, false, not, ◌&&◌, ◌||◌, List, [], ◌∷◌, ◌++◌, ltb,
  ◌==◌, if◌then◌else◌, length,
}

-- `GWObjects::RadiusEndpointType`
pub data Kind : Type 0 where
  generic radsec globalreach orion unknown : Kind

abbrev pub is_generic : Kind → Bool
is_generic generic = true
is_generic radsec = false
is_generic globalreach = false
is_generic orion = false
is_generic unknown = false

pub record Destination : Type 0 where
  pub kind : Kind
  pub try_again : Bool
  pub connected : Bool
  pub server_index : ℕ
  -- `CurrentDelay`, `LastTry` and `LastKeepAlive` of the loop.
  pub current_delay : ℕ
  pub last_try : ℕ
  pub last_keep_alive : ℕ
  -- The servers to which a keep-alive or a packet has been sent, with the bytes of the packet.
  pub kept_alive : List ℕ
  pub sent : List (ℕ × List ℕ)

-- One attempt: which servers of `acctConfig` accept a connection, in their order, and whether the
-- certificate that is used has expired.
pub record Attempt : Type 0 where
  pub accepts : List Bool
  pub expired : Bool

-- The index of the first server that accepts, counted from `index`, and whether there is one.
unfoldable pub connect_servers : List Bool → ℕ → ℕ × Bool
connect_servers [] index = (0, false)
connect_servers (true ∷ accepts) index = (index, true)
connect_servers (false ∷ accepts) index = connect_servers accepts (index + 1)

-- `Connect_Orion` and `Connect_GlobalReach`.
unfoldable pub connect_secure : Attempt → Destination → Destination × Bool
connect_secure a d =
    let (index, found) = connect_servers a.accepts 0 in
    if not d.try_again
    then (record d { server_index = 0 }, false)
    else if a.expired
    then (d, false)
    else if found
    then (record d { server_index = index; connected = true }, true)
    else (record d { server_index = 0 }, false)

-- `Connect_Generic` opens sockets for datagrams.
unfoldable pub connect_generic : Destination → Destination × Bool
connect_generic d =
    if d.try_again && not d.connected then (record d { connected = true }, true) else (d, true)

-- `Connect`; `Connect_Radsec` does nothing, and says that it has connected.
unfoldable pub connect : Attempt → Destination → Destination × Bool
connect a d = elim d.kind [
  | orion ↦ connect_secure a d
  | globalreach ↦ connect_secure a d
  | radsec ↦ (d, true)
  | generic ↦ connect_generic d
  | unknown ↦ connect_generic d
]

-- The difference of two times of 64 bits.
abbrev pub since : ℕ → ℕ → ℕ
since now before = (now + 2 ^ 64 - before) % 2 ^ 64

abbrev pub next_delay : Bool → ℕ → ℕ
next_delay true delay = 10
next_delay false delay = if ltb 300 (delay * 2) then 10 else delay * 2

unfoldable pub attempt : ℕ → Attempt → Destination → Destination
attempt now a d =
    let (t, good) = connect a (record d { last_try = now }) in
    record t { current_delay = next_delay good t.current_delay }

unfoldable pub keep_alive : ℕ → Destination → Destination
keep_alive now d = record d {
  last_keep_alive = now;
  kept_alive = if is_generic d.kind then d.kept_alive else d.kept_alive ++ (d.server_index ∷ []);
}

-- One round of `run`, where `period` is `radsecKeepAlive`.
unfoldable pub round : ℕ → ℕ → Attempt → Destination → Destination
round period now a d =
    if not d.try_again
    then d
    else if not d.connected
    then if d.last_try == 0 || ltb d.current_delay (since now d.last_try)
      then attempt now a d
      else d
    else if ltb period (since now d.last_keep_alive)
    then keep_alive now d
    else d

-- `Disconnect`, which `onError`, `onShutdown` and a bad packet in `onData` call.
unfoldable pub disconnect : Destination → Destination
disconnect d = if d.connected then record d { connected = false } else d

unfoldable pub stop : Destination → Destination
stop d = disconnect (record d { try_again = false })

-- `SendData`: the authenticator is computed again (`sign`) unless it verifies; `taken` is how many
-- bytes the socket takes, none if it throws.
unfoldable pub send_data :
    (List ℕ → Bool) → (List ℕ → List ℕ) → ℕ → List ℕ → Destination → Destination × Bool
send_data verify sign taken bytes d =
    let packet = if verify bytes then bytes else sign bytes in
    if d.connected
    then (record d { sent = d.sent ++ ((d.server_index, packet) ∷ []) }, taken == length bytes)
    else (d, false)
