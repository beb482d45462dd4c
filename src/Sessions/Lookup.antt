-- ===== src/Sessions/Lookup.antt =====
-- The accesses to one shard, seen through the lookups of AP_WS_Server.cpp.
use wlan_cloud_ucentralgw.Base.{ℕ, ◌≡◌, refl, none, some, ◌==◌, if◌then◌else◌, arith}
use wlan_cloud_ucentralgw.Base.Dict.{find-assign, find-erase}
use wlan_cloud_ucentralgw.Sessions.{
  Server, Pointer, find_session, find_device, put_session, drop_session, put_device, drop_device,
  session_hash, mac_hash,
}

module _ (s : Server) where
  pub find_session-put :
      (id j : ℕ) (p : Pointer)
      → find_session (put_session id p s) j ≡ (if id == j then some p else find_session s j)
  unfolding find_session put_session
  find_session-put id j p = ground (arith, find-assign id j p (s.sessions (session_hash id)))

  pub find_session-drop :
      (id j : ℕ) → find_session (drop_session id s) j ≡ (if id == j then none else find_session s j)
  unfolding find_session drop_session
  find_session-drop id j = ground (arith, find-erase id j (s.sessions (session_hash id)))

  pub find_device-put :
      (sn j : ℕ) (p : Pointer)
      → find_device (put_device sn p s) j ≡ (if sn == j then some p else find_device s j)
  unfolding find_device put_device
  find_device-put sn j p = ground (arith, find-assign sn j p (s.serial_numbers (mac_hash sn)))

  pub find_device-drop :
      (sn j : ℕ) → find_device (drop_device sn s) j ≡ (if sn == j then none else find_device s j)
  unfolding find_device drop_device
  find_device-drop sn j = ground (arith, find-erase sn j (s.serial_numbers (mac_hash sn)))

  -- What an access to one of the two arrays leaves of the other.
  pub find_device-put_session :
      (id j : ℕ) (p : Pointer) → find_device (put_session id p s) j ≡ find_device s j
  unfolding find_device put_session
  find_device-put_session id j p = refl

  pub find_device-drop_session : (id j : ℕ) → find_device (drop_session id s) j ≡ find_device s j
  unfolding find_device drop_session
  find_device-drop_session id j = refl

  pub find_session-put_device :
      (sn j : ℕ) (p : Pointer) → find_session (put_device sn p s) j ≡ find_session s j
  unfolding find_session put_device
  find_session-put_device sn j p = refl

  pub find_session-drop_device : (sn j : ℕ) → find_session (drop_device sn s) j ≡ find_session s j
  unfolding find_session drop_device
  find_session-drop_device sn j = refl

pub ruleset lookups = (
  find_session-put, find_session-drop, find_device-put, find_device-drop, find_device-put_session,
  find_device-drop_session, find_session-put_device, find_session-drop_device,
)
