-- ===== src/Sessions/Tests.antt =====
-- Runs of the registry of AP_WS_Server.cpp, and its theorems at concrete inputs.
use wlan_cloud_ucentralgw.Base.{
  ℕ, ◌+◌, ◌%◌, ◌≡◌, refl, Bool, true, false, none, some, List, [], ◌∷◌, ◌==◌, if◌then◌else◌, arith,
}
use wlan_cloud_ucentralgw.Base.Dict.{find, assign, erase}
use wlan_cloud_ucentralgw.Sessions.{
  Server, Heap, Pointer, mac_hash, session_hash, find_session, find_device, add_connection,
  start_session, end_session, put_session, drop_session, put_device,
}
use wlan_cloud_ucentralgw.Sessions.Spec.{view, Call, adds, starts, ends, step, run, spec_run}
use wlan_cloud_ucentralgw.Sessions.Refines.{run-refines}
use wlan_cloud_ucentralgw.Sessions.Stale.{start-survives, end_session-cases}
use wlan_cloud_ucentralgw.Sessions.Zombies.{
  is_zombie, sweep, sweep_map, sweep_maps, device_pass, session_pass, zombie_run, drain_queue,
  drain,
}
use wlan_cloud_ucentralgw.Sessions.Zombies.Collect.{IsKeyed, collect-devices}

abbrev empty : Server
empty = record {
  sessions = λ h. [];
  serial_numbers = λ h. [];
  cleanup_sessions = [];
  session_time_out = 600;
  number_of_connected_devices = 1;
  number_of_connecting_devices = 0;
  average_device_connection_time = 0;
  left_over_sessions = 0;
  last_zombie_run = 0;
}

-- Connection c has the session 100 + c; the odd ones belong to the device 0x11, the others to 0x22.
abbrev heap : Heap
heap c = record {
  session_id = 100 + c;
  serial_number = if c % 2 == 1 then 0x11 else 0x22;
  dead = c == 1;
  connected = true;
  last_contact = 1000;
  started = 900;
}

-- Device 0x11 on connection 1, which is dead, and device 0x22 on connection 2.
abbrev history : List Call
history = adds 1 ∷ adds 2 ∷ starts 101 0x11 ∷ starts 102 0x22 ∷ []

abbrev two_devices : Server
two_devices = run heap history empty

hash_of_11 : mac_hash 0x11 ≡ 0x13
unfolding mac_hash
hash_of_11 = refl

two_devices_bound :
    (find_device two_devices 0x11 ≡ some (some 1)) × (find_device two_devices 0x22 ≡ some (some 2))
unfolding run step add_connection start_session find_session find_device put_session drop_session
    put_device find assign erase session_hash mac_hash
two_devices_bound = (refl, refl)

run-refines_example : view two_devices ≡ spec_run heap history (view empty)
run-refines_example = run-refines heap history empty

no_session_103 : find_session two_devices 103 ≡ none
unfolding run step add_connection start_session find_session put_session drop_session put_device
    find assign erase session_hash mac_hash
no_session_103 = refl

-- Device 0x11 connects anew as connection 3, and then its first session is ended.
start-survives_example :
    find_device (run heap (adds 3 ∷ starts 103 0x11 ∷ ends 101 0x11 ∷ []) two_devices) 0x11
    ≡ some (some 3)
start-survives_example =
    start-survives heap 103 0x11 3 refl (ends 101 0x11 ∷ []) two_devices no_session_103
      (omega arith)

end_session-cases_example :
    let r = end_session heap 102 0x11 two_devices in
    (r.1 ≡ false)
    × ((j : ℕ) → find_session r.0 j ≡ (if 102 == j then none else find_session two_devices j))
    × ((j : ℕ) → find_device r.0 j ≡ find_device two_devices j)
end_session-cases_example =
    end_session-cases heap 101 0x11 1 refl 102 two_devices two_devices_bound.0

empty-IsKeyed : IsKeyed heap empty
empty-IsKeyed = record { devices = λ h. tt; sessions = λ h. tt }

-- One live connection that waits for its serial number, and one device.
abbrev one_each : Server
one_each = record empty {
  sessions = λ h. if h == 104 then (104, some 4) ∷ [] else [];
  serial_numbers = λ h. if h == 0x22 then (0x22, some 2) ∷ [] else [];
}

one_each-IsKeyed : IsKeyed heap one_each
one_each-IsKeyed = record { devices = λ h. ground arith; sessions = λ h. ground arith }

abbrev clock : ℕ → ℕ
clock c = 1100

abbrev always : ℕ → Bool
always h = true

left_device :
    find_device (drain heap (zombie_run heap 1100 clock always clock always one_each)) 0x22
    ≡ some (some 2)
unfolding drain drain_queue zombie_run device_pass session_pass sweep_maps sweep_map sweep
    find_device find mac_hash
left_device = refl

left_session :
    find_session (drain heap (zombie_run heap 1100 clock always clock always one_each)) 104
    ≡ some (some 4)
unfolding drain drain_queue zombie_run device_pass session_pass sweep_maps sweep_map sweep
    find_session find session_hash
left_session = refl

collect-devices_example :
    (c : ℕ) × (◌≡◌ {A = Pointer} (some 2) (some c)) × (is_zombie 600 (clock c) (heap c) ≡ false)
collect-devices_example =
    collect-devices heap 1100 clock clock always always one_each (omega arith) one_each-IsKeyed 0x22
      (some 2) refl left_device
