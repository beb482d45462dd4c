-- ===== src/Tracker.antt =====
-- The tracker of RADIUS sessions, RADIUSSessionTracker.h and RADIUSSessionTracker.cpp: for each
-- access point the sessions that its accounting and authentication packets have opened.
-- Strings are lists of bytes. `Poco::StringTokenizer(s, ":")` is the parameter `tokens`, the
-- packets that are handed to RADIUS_proxy_server are logged, and a session's object is reached
-- through the table alone, since every query copies it.
pub mod Attributes
pub mod Life
pub mod Process
pub mod Octets
pub mod Collector
mod Tests
use wlan_cloud_ucentralgw.Base.{
  ℕ, ◌+◌, ◌-◌, ◌%◌, ◌^◌, Bool, true, false, ◌||◌, Option, none, some, List, [], ◌∷◌, ◌++◌, ltb,
  ◌==◌, if◌then◌else◌, length,
}
use wlan_cloud_ucentralgw.Base.Table.{Text, Table, get_entry, put_entry, drop_entry}
use wlan_cloud_ucentralgw.Radius.Packet.{
  RadiusPacket, blank, append_u32, replace_u32, replace_or_add_u32,
}
use wlan_cloud_ucentralgw.Tracker.Attributes.{
  accounting_throws, authentication_throws, Names, Fields, accounting_fields, authentication_names,
}

-- `GWObjects::RADIUSSession`.
pub record RadiusSession : Type 0 where
  pub started : ℕ
  pub last_transaction : ℕ
  pub destination : Text
  pub names : Names
  pub secret : Text
  pub input_packets : ℕ
  pub output_packets : ℕ
  pub input_octets : ℕ
  pub output_octets : ℕ
  pub input_giga_words : ℕ
  pub output_giga_words : ℕ
  pub session_time : ℕ
  pub accounting_packet : RadiusPacket

pub record SessionNotification : Type 0 where
  pub destination : Text
  pub serial_number : Text
  pub packet : RadiusPacket
  pub secret : Text

-- A call of `RouteAndSendAccountingPacket`.
pub record Sent : Type 0 where
  pub destination : Text
  pub serial_number : Text
  pub packet : RadiusPacket
  pub secret : Text

abbrev pub SessionMap : Type 0
SessionMap = Table RadiusSession

pub record Tracker : Type 0 where
  pub accounting_sessions : Table SessionMap
  pub session_timeout : ℕ
  pub sent : List Sent

abbrev pub put_sessions : Text → SessionMap → Tracker → Tracker
put_sessions serial m t = record t {
  accounting_sessions = put_entry serial m t.accounting_sessions;
}

-- The map of the access point, which is made if it is not there.
unfoldable pub open_access_point : Text → Tracker → Tracker × SessionMap
open_access_point serial t = elim (get_entry serial t.accounting_sessions) [
  | none ↦ (put_sessions serial [] t, [])
  | some m ↦ (t, m)
]

-- `AccountingSessionId + AccountingMultiSessionId`
abbrev pub index_of : Names → Text
index_of names = names.accounting_session_id ++ names.accounting_multi_session_id

-- The packets are counted in `outputOctets`, behind the octets themselves.
unfoldable pub counted : Fields → RadiusSession → RadiusSession
counted f s = record s {
  input_octets = f.input_octets;
  input_packets = f.input_packets;
  input_giga_words = f.input_giga_words;
  output_octets = f.output_packets;
  output_giga_words = f.output_giga_words;
  session_time = f.session_time;
}

unfoldable pub opened_session : ℕ → Names → Text → Text → RadiusSession
opened_session now names destination secret = record {
  started = now;
  last_transaction = now;
  destination = destination;
  names = names;
  secret = secret;
  input_packets = 0;
  output_packets = 0;
  input_octets = 0;
  output_octets = 0;
  input_giga_words = 0;
  output_giga_words = 0;
  session_time = 0;
  accounting_packet = blank;
}

unfoldable pub new_session : ℕ → Fields → SessionNotification → RadiusSession
new_session now f n = record (counted f (opened_session now f.names n.destination n.secret)) {
  accounting_packet = n.packet;
}

unfoldable pub updated_session : ℕ → Fields → SessionNotification → RadiusSession → RadiusSession
updated_session now f n s = record (counted f s) {
  accounting_packet = n.packet;
  destination = n.destination;
  last_transaction = now;
}

-- `ProcessAccountingSession`: 1 starts a session, 2 stops it, 3 reports in between. It is called for
-- packets whose attributes can be read; the others are sorted out by `handle`.
unfoldable pub process_accounting : (Text → List Text) → ℕ → SessionNotification → Tracker → Tracker
process_accounting tokens now n t =
    let f = accounting_fields tokens n.packet in
    let (t', m) = open_access_point n.serial_number t in
    elim (get_entry (index_of f.names) m) [
      | none ↦
          if f.status == 1 || f.status == 3
          then put_sessions n.serial_number (put_entry (index_of f.names) (new_session now f n) m)
              t'
          else t'
      | some s ↦
          if f.status == 2
          then put_sessions n.serial_number (drop_entry (index_of f.names) m) t'
          else put_sessions n.serial_number
              (put_entry (index_of f.names) (updated_session now f n s) m) t'
    ]

unfoldable pub process_authentication :
    (Text → List Text) → ℕ → SessionNotification → Tracker → Tracker
process_authentication tokens now n t =
    let names = authentication_names tokens n.packet in
    let (t', m) = open_access_point n.serial_number t in
    elim (get_entry (index_of names) m) [
      | none ↦
          put_sessions n.serial_number
            (put_entry (index_of names) (opened_session now names [] n.secret) m) t'
      | some s ↦
          put_sessions n.serial_number
            (put_entry (index_of names) (record s { last_transaction = now }) m) t'
    ]

-- The accounting stop that ends a session: its last accounting packet with the next identifier, the
-- status 2 (40), the time (55) and the cause lost carrier (49).
unfoldable pub stop_packet : ℕ → RadiusPacket → RadiusPacket
stop_packet time p = append_u32 49 2 (
    replace_or_add_u32 55 time
      (replace_u32 40 2 (record p { identifier = (p.identifier + 1) % 2 ^ 8 })))

unfoldable pub stops : ℕ → Text → SessionMap → List Sent
stops time serial [] = []
stops time serial ((index, s) ∷ m) =
    record {
      destination = s.destination;
      serial_number = serial;
      packet = stop_packet time s.accounting_packet;
      secret = s.secret;
    }
    ∷ stops time serial m

unfoldable pub disconnect_session : ℕ → Text → Tracker → Tracker
disconnect_session time serial t = elim (get_entry serial t.accounting_sessions) [
  | none ↦ t
  | some m ↦ record t {
    accounting_sessions = drop_entry serial t.accounting_sessions;
    sent = t.sent ++ stops time serial m;
  }
]

-- `(Now - session->lastTransaction) > SessionTimeout_`, on 64 bits.
abbrev pub is_idle : ℕ → ℕ → RadiusSession → Bool
is_idle now timeout s = ltb timeout ((now + 2 ^ 64 - s.last_transaction) % 2 ^ 64)

unfoldable pub live_sessions : ℕ → ℕ → SessionMap → SessionMap
live_sessions now timeout [] = []
live_sessions now timeout ((index, s) ∷ m) =
    let rest = live_sessions now timeout m in
    if is_idle now timeout s then rest else (index, s) ∷ rest

unfoldable pub live_devices : ℕ → ℕ → Table SessionMap → Table SessionMap
live_devices now timeout [] = []
live_devices now timeout ((serial, m) ∷ d) =
    let rest = live_devices now timeout d in
    elim (live_sessions now timeout m) [ [] ↦ rest | s ∷ more ↦ (serial, s ∷ more) ∷ rest ]

unfoldable pub garbage_collection : ℕ → Tracker → Tracker
garbage_collection now t = record t {
  accounting_sessions = live_devices now t.session_timeout t.accounting_sessions;
}

-- `HasSessions`
unfoldable pub has_sessions : Text → Tracker → ℕ
has_sessions serial t = elim (get_entry serial t.accounting_sessions) [
  | none ↦ 0
  | some m ↦ length m
]

-- What `run` takes from its queue, and its handling of one notification.
pub data Event : Type 0 where
  accounting_session_message authentication_session_message : SessionNotification → Event
  ap_disconnect : Text → Event

-- What the reading of the attributes throws is caught, and logged.
unfoldable pub handle : (Text → List Text) → ℕ → Event → Tracker → Tracker
handle tokens now (accounting_session_message n) t =
    if accounting_throws n.packet then t else process_accounting tokens now n t
handle tokens now (authentication_session_message n) t =
    if authentication_throws n.packet then t else process_authentication tokens now n t
handle tokens now (ap_disconnect serial) t = disconnect_session now serial t
