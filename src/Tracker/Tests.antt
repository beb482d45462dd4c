-- ===== src/Tracker/Tests.antt =====
-- The theorems on the sessions of RADIUSSessionTracker.cpp at concrete inputs.
use wlan_cloud_ucentralgw.Base.{
  ℕ, ◌+◌, ◌≡◌, refl, ◌&&◌, inl, false, none, some, List, [], ◌∷◌, if◌then◌else◌, length,
}
use wlan_cloud_ucentralgw.Base.Table.{Text, same, get_entry}
use wlan_cloud_ucentralgw.Radius.Packet.{RadiusPacket, blank, bytes_at, write, poke}
use wlan_cloud_ucentralgw.Tracker.Attributes.{
  no_names, accounting_throws, accounting_fields, read_all, read_accounting, read_names, get_u32,
}
use wlan_cloud_ucentralgw.Tracker.{
  RadiusSession, SessionNotification, Tracker, index_of, process_accounting, disconnect_session,
  has_sessions, live_sessions, live_devices, garbage_collection, Event, accounting_session_message,
  ap_disconnect, handle,
}
use wlan_cloud_ucentralgw.Tracker.Life.{session_in, session_of, accounting_next}
use wlan_cloud_ucentralgw.Tracker.Process.{process_accounting_lem, disconnect_session_lem}
use wlan_cloud_ucentralgw.Tracker.Octets.{
  AllUncounted, IsMiscounted, handle_all, handle_all-IsMiscounted,
}

abbrev one_token : Text → List Text
one_token s = s ∷ []

abbrev idle_tracker : Tracker
idle_tracker = record { accounting_sessions = []; session_timeout = 600; sent = [] }

-- A start with the session id 65 and 7 output packets.
abbrev start_packet : RadiusPacket
start_packet = record blank {
  attributes =
      write (λ i. 0) 0 (40 ∷ 6 ∷ 0 ∷ 0 ∷ 0 ∷ 1 ∷ 44 ∷ 3 ∷ 65 ∷ 48 ∷ 6 ∷ 0 ∷ 0 ∷ 0 ∷ 7 ∷ []);
  attrs =
      record { type = 40; pos = 2; len = 4 }
      ∷ record { type = 44; pos = 8; len = 1 }
      ∷ record { type = 48; pos = 11; len = 4 }
      ∷ [];
  size = 35;
}

abbrev start : SessionNotification
start = record { destination = 1 ∷ []; serial_number = 2 ∷ []; packet = start_packet; secret = [] }

abbrev session : RadiusSession
session = record {
  started = 100;
  last_transaction = 100;
  destination = 1 ∷ [];
  names = no_names;
  secret = [];
  input_packets = 0;
  output_packets = 0;
  input_octets = 0;
  output_octets = 7;
  input_giga_words = 0;
  output_giga_words = 0;
  session_time = 0;
  accounting_packet = start_packet;
}

abbrev one_session : Tracker
one_session = record idle_tracker { accounting_sessions = (2 ∷ [], (65 ∷ [], session) ∷ []) ∷ [] }

start_is_status_1 : (accounting_fields one_token start_packet).status ≡ 1
unfolding accounting_fields read_all read_accounting read_names write poke bytes_at get_u32
start_is_status_1 = refl

process_accounting_lem_example :
    let f = accounting_fields one_token start_packet in
    let index = index_of f.names in
    session_of (process_accounting one_token 100 start idle_tracker) (2 ∷ []) (65 ∷ []) ≡ (
      if same (2 ∷ []) (2 ∷ []) && same index (65 ∷ [])
      then accounting_next 100 f start (session_of idle_tracker (2 ∷ []) index)
      else session_of idle_tracker (2 ∷ []) (65 ∷ []))
process_accounting_lem_example =
    process_accounting_lem one_token 100 start idle_tracker (2 ∷ []) (65 ∷ [])

disconnect_session_lem_example :
    let u = disconnect_session 200 (2 ∷ []) one_session in
    ((j k : Text)
      → session_of u j k ≡ (if same (2 ∷ []) j then none else session_of one_session j k))
    × (length u.sent ≡ 0 + has_sessions (2 ∷ []) one_session)
disconnect_session_lem_example = disconnect_session_lem 200 (2 ∷ []) one_session

idle_tracker-AllUncounted : AllUncounted idle_tracker
unfolding session_of session_in get_entry
idle_tracker-AllUncounted j k = tt

abbrev reports : List (ℕ × Event)
reports = (100, accounting_session_message start) ∷ (110, ap_disconnect (2 ∷ [])) ∷ []

start_is_read : accounting_throws start_packet ≡ false
unfolding accounting_throws
start_is_read = refl

handle_all-IsMiscounted_example :
    let f = accounting_fields one_token start_packet in
    let u =
      handle one_token 120
        (accounting_session_message start)
        (handle_all one_token reports idle_tracker) in
    IsMiscounted f (session_of u (2 ∷ []) (index_of f.names)) × AllUncounted u
handle_all-IsMiscounted_example =
    handle_all-IsMiscounted one_token reports idle_tracker 120 start idle_tracker-AllUncounted
      (inl start_is_status_1) start_is_read

session_kept : session_of (garbage_collection 500 one_session) (2 ∷ []) (65 ∷ []) ≡ some session
unfolding garbage_collection live_devices live_sessions session_of session_in get_entry same
session_kept = refl

session_there : session_of one_session (2 ∷ []) (65 ∷ []) ≡ some session
unfolding session_of session_in get_entry same
session_there = refl
