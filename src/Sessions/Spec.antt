-- ===== src/Sessions/Spec.antt =====
-- What the registry of AP_WS_Server.h promises: two partial functions, one from session ids and one
-- from serial numbers, with no shards and no order.
use wlan_cloud_ucentralgw.Base.{
  ℕ, Bool, false, Option, none, some, ◌==◌, if◌then◌else◌, List, [], ◌∷◌,
}
use wlan_cloud_ucentralgw.Sessions.{
  Server, Heap, Pointer, find_session, find_device, add_connection, start_session, end_session,
  disconnect,
}

pub record View : Type 0 where
  pub session : ℕ → Option Pointer
  pub device : ℕ → Option Pointer

abbrev pub view : Server → View
view s = record { session = find_session s; device = find_device s }

-- A point of a partial function is given anew.
abbrev pub point : ℕ → Option Pointer → (ℕ → Option Pointer) → ℕ → Option Pointer
point k p f j = if k == j then p else f j

-- A call of the registry by a connection or by a REST handler.
pub data Call : Type 0 where
  adds : ℕ → Call
  starts : ℕ → ℕ → Call
  ends : ℕ → ℕ → Call
  disconnects : ℕ → Call

unfoldable pub step : Heap → Call → Server → Server
step heap (adds c) s = add_connection heap c s
step heap (starts id sn) s = start_session id sn s
step heap (ends id sn) s = (end_session heap id sn s).0
step heap (disconnects sn) s = (disconnect heap sn s).0

-- The device is bound to a connection that has the session.
abbrev pub has_session : Heap → ℕ → Option Pointer → Bool
has_session heap id none = false
has_session heap id (some none) = false
has_session heap id (some (some c)) = (heap c).session_id == id

abbrev pub add_if_new : ℕ → ℕ → Option Pointer → (ℕ → Option Pointer) → ℕ → Option Pointer
add_if_new c id none f = point id (some (some c)) f
add_if_new c id (some p) f = f

abbrev pub spec_starts : ℕ → ℕ → Option Pointer → View → View
spec_starts id sn none v = v
spec_starts id sn (some p) v = record {
  session = point id none v.session;
  device = point sn (some p) v.device;
}

abbrev pub spec_disconnects : Heap → ℕ → Option Pointer → View → View
spec_disconnects heap sn none v = v
spec_disconnects heap sn (some none) v = v
spec_disconnects heap sn (some (some c)) v = record {
  session = point (heap c).session_id none v.session;
  device = point sn none v.device;
}

unfoldable pub spec_step : Heap → Call → View → View
spec_step heap (adds c) v =
    let id = (heap c).session_id in record v { session = add_if_new c id (v.session id) v.session }
spec_step heap (starts id sn) v = spec_starts id sn (v.session id) v
spec_step heap (ends id sn) v = record {
  session = point id none v.session;
  device = if has_session heap id (v.device sn) then point sn none v.device else v.device;
}
spec_step heap (disconnects sn) v = spec_disconnects heap sn (v.device sn) v

unfoldable pub run : Heap → List Call → Server → Server
run heap [] s = s
run heap (c ∷ cs) s = run heap cs (step heap c s)

unfoldable pub spec_run : Heap → List Call → View → View
spec_run heap [] v = v
spec_run heap (c ∷ cs) v = spec_run heap cs (spec_step heap c v)
