-- ===== src/Sessions.antt =====
-- The registry of device connections, AP_WS_Server.h and AP_WS_Server.cpp: connections that have
-- no serial number yet stand in `Sessions_`, devices that have said who they are in
-- `SerialNumbers_`; both are arrays of 256 maps, and a key's hash chooses the map.
-- A `std::shared_ptr` is an index into the heap of connections, or none. Each of the operations
-- holds the lock of the map that it changes, so it is one step here.
mod Lookup
pub mod Spec
pub mod Refines
pub mod Stale
pub mod Zombies
pub mod Keyed
mod Tests
use Prim.Native.Nat.{bit_xor}
use wlan_cloud_ucentralgw.Base.{
  ℕ, zero, suc, ◌+◌, ◌/◌, ◌%◌, ◌^◌, ◌<◌, ◌≡◌, Bool, true, false, Option, none, some, List, [], ◌∷◌,
  ◌==◌, if◌then◌else◌, arith,
}
use wlan_cloud_ucentralgw.Base.Dict.{Dict, find, assign, erase}

-- `MACHash::Hash`, its loop on the rounds left: `hash ^= (value & 255) + 1; value >>= 8`.
hash_loop : ℕ → ℕ → ℕ → ℕ
hash_loop zero value hash = hash
hash_loop (suc i) value hash =
    hash_loop i (value / 2 ^ 8) (bit_xor hash (value % 2 ^ 8 + 1) % 2 ^ 8)

pub mac_hash : ℕ → ℕ
unfolding hash_loop
mac_hash value = hash_loop 6 value 0

-- `SessionHash::Hash`: `value & 255`.
pub session_hash : ℕ → ℕ
session_hash value = value % 2 ^ 8

-- What the registry reads of an `AP_WS_Connection`.
pub record Connection : Type 0 where
  pub session_id : ℕ
  pub serial_number : ℕ
  pub dead : Bool
  pub connected : Bool
  pub last_contact : ℕ
  pub started : ℕ

abbrev pub Heap : Type 0
Heap = ℕ → Connection

-- A `std::shared_ptr<AP_WS_Connection>`.
abbrev pub Pointer : Type 0
Pointer = Option ℕ

abbrev pub Shards : Type 0
Shards = ℕ → Dict Pointer

pub record Server : Type 0 where
  pub sessions : Shards
  pub serial_numbers : Shards
  pub cleanup_sessions : List (ℕ × ℕ)
  pub session_time_out : ℕ
  pub number_of_connected_devices : ℕ
  pub number_of_connecting_devices : ℕ
  pub average_device_connection_time : ℕ
  pub left_over_sessions : ℕ
  pub last_zombie_run : ℕ

unfoldable pub update : Shards → ℕ → Dict Pointer → Shards
update f i m = λ j. if i == j then m else f j

-- `Sessions_[SessionHash::Hash(id)].find(id)` and `SerialNumbers_[MACHash::Hash(sn)].find(sn)`.
pub find_session : Server → ℕ → Option Pointer
find_session s id = find id (s.sessions (session_hash id))

pub find_device : Server → ℕ → Option Pointer
find_device s sn = find sn (s.serial_numbers (mac_hash sn))

pub put_session : ℕ → Pointer → Server → Server
unfolding update
put_session id p s =
    let h = session_hash id in
    record s { sessions = update s.sessions h (assign id p (s.sessions h)) }

pub drop_session : ℕ → Server → Server
unfolding update
drop_session id s =
    let h = session_hash id in record s { sessions = update s.sessions h (erase id (s.sessions h)) }

pub put_device : ℕ → Pointer → Server → Server
unfolding update
put_device sn p s =
    let h = mac_hash sn in
    record s { serial_numbers = update s.serial_numbers h (assign sn p (s.serial_numbers h)) }

pub drop_device : ℕ → Server → Server
unfolding update
drop_device sn s =
    let h = mac_hash sn in
    record s { serial_numbers = update s.serial_numbers h (erase sn (s.serial_numbers h)) }

-- `AddConnection`: a session that is there already is kept.
pub add_connection : Heap → ℕ → Server → Server
add_connection heap c s = elim (find_session s (heap c).session_id) [
  | none ↦ put_session (heap c).session_id (some c) s
  | some p ↦ s
]

-- `StartSession` moves a connection from the sessions to the devices.
pub start_session : ℕ → ℕ → Server → Server
start_session id sn s = elim (find_session s id) [
  | none ↦ s
  | some p ↦ put_device sn p (drop_session id s)
]

-- `EndSession`: the session is erased, and the device only if its connection has this session.
pub end_session : Heap → ℕ → ℕ → Server → Server × Bool
end_session heap id sn s =
    let s' = drop_session id s in
    elim (find_device s' sn) [
      | none ↦ (s', false)
      | some none ↦ (s', false)
      | some (some c) ↦ if (heap c).session_id == id then (drop_device sn s', true) else (s', false)
    ]

pub disconnect : Heap → ℕ → Server → Server × Bool
disconnect heap sn s = elim (find_device s sn) [
  | none ↦ (s, false)
  | some none ↦ (s, false)
  | some (some c) ↦ (drop_session (heap c).session_id (drop_device sn s), true)
]

-- `Connected(SerialNumber)`.
pub is_connected : Heap → ℕ → Server → Bool
is_connected heap sn s = elim (find_device s sn) [
  | none ↦ false
  | some none ↦ false
  | some (some c) ↦ if (heap c).dead then false else (heap c).connected
]

-- `SendFrame`: `send c` is what `Connection->Send(Payload)` answers, none if it throws.
pub send_frame : Heap → (ℕ → Option Bool) → ℕ → Server → Bool
send_frame heap send sn s = elim (find_device s sn) [
  | none ↦ false
  | some none ↦ false
  | some (some c) ↦
      if (heap c).dead then false else elim (send c) [ none ↦ false | some sent ↦ sent ]
]
