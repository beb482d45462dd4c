-- ===== src/ApConnection/Tests.antt =====
-- Connections of access points, AP_WS_Connection.cpp, at concrete devices.
use wlan_cloud_ucentralgw.Base.{
  ℕ, ◌<◌, ◌≡◌, refl, true, false, none, some, List, [], ◌∷◌, ◌++◌, arith,
}
use wlan_cloud_ucentralgw.Base.Table.{same}
use wlan_cloud_ucentralgw.Serials.{from_hex, stoull}
use wlan_cloud_ucentralgw.ApConnection.Telemetry.{Sending, no_telemetry, payload}
use wlan_cloud_ucentralgw.ApConnection.Telemetry.Told.{
  Call, set_web_socket, stop_web_socket, stop_kafka, event, IsTold, run-IsTold,
}
use wlan_cloud_ucentralgw.ApConnection.Telemetry.Told as Told
use wlan_cloud_ucentralgw.ApConnection.Upgrade.{
  Configurations, StoredDevice, Upgrade, look_for_upgrade, compare_configuration,
  send_configuration,
}
use wlan_cloud_ucentralgw.ApConnection.Upgrade.Newer.{IsSettled, look_for_upgrade-settles}
use wlan_cloud_ucentralgw.ApConnection.Link.{
  no_certificate, verified, Restrictions, Device, ApConnection, World, certified,
  valid_serial_number, is_sim, admit, validated_device,
}
use wlan_cloud_ucentralgw.ApConnection.Connect.{ConnectParams, process_connect}
use wlan_cloud_ucentralgw.ApConnection.Frames.{
  Document, other_rpc, frame, process_document, process_ws_final_payload, unless_errors,
  count_frame, finish_frame, process_operation, process_incoming_frame, on_socket_readable,
}
use wlan_cloud_ucentralgw.ApConnection.Kept.{IsEnded}
use wlan_cloud_ucentralgw.ApConnection.Admitted.{IsAdmitted}
use wlan_cloud_ucentralgw.ApConnection.Ends.{
  Step, reads, ends, IsFresh, HasShown, run, run-IsEnded, reading-IsAdmitted,
}
use wlan_cloud_ucentralgw.ApConnection.Introduced.{process_connect-dead}
use wlan_cloud_ucentralgw.ApConnection.Assembly.{Piece, assemble, bytes_of, assemble-whole}

abbrev through : ℕ → Sending
through rpc = record { rpc = rpc; is_sent = true }

abbrev fails : ℕ → Sending
fails rpc = record { rpc = rpc; is_sent = false }

-- A browser asks for telemetry, data arrive in time and too late, and a client of Kafka leaves that
-- was never there. The first stop does not get through.
abbrev calls : List Call
calls =
    set_web_socket (through 1) 60 100 1000 []
    ∷ event true 1010 (through 2) (through 3) false (payload (7 ∷ []))
    ∷ event true 2000 (fails 4) (through 5) false (payload (8 ∷ []))
    ∷ stop_kafka (through 6)
    ∷ []

run-IsTold_example : IsTold 4 (Told.run calls no_telemetry)
run-IsTold_example = run-IsTold calls (omega arith)

-- A configuration is the list of its UUID and its text.
abbrev listed : Configurations
listed = record {
  config_uuid = λ c. elim c [ [] ↦ 0 | x ∷ text ↦ x ];
  set_uuid = λ n c. elim c [ [] ↦ n ∷ [] | x ∷ text ↦ n ∷ text ];
  is_valid = λ c. true;
}

-- The storage has an older configuration than the device.
abbrev older : Upgrade
older = record {
  pending_uuid = 0;
  stored = some (record {
    uuid = 4;
    pending_uuid = 0;
    configuration = 4 ∷ 77 ∷ [];
    pending_configuration = [];
    pending_configuration_cmd = [];
    is_switch = false;
  });
  current = 4;
  sent = [];
}

sends_7 : (look_for_upgrade listed 5 older).state.sent ≡ (7, 7 ∷ 77 ∷ []) ∷ []
unfolding look_for_upgrade compare_configuration send_configuration
sends_7 = refl

look_for_upgrade-settles_example :
    let r = look_for_upgrade listed 5 older in
    (d : StoredDevice) × ((5 < r.state.pending_uuid)
      × (r.state.stored ≡ some d)
      × ((r.state.sent ≡ (r.state.pending_uuid, d.configuration) ∷ [])
          × IsSettled r.state.sent r.state.pending_uuid d
              (look_for_upgrade listed r.state.pending_uuid (record r.state { current = 4 }))))
look_for_upgrade-settles_example =
    look_for_upgrade-settles listed 5 4 older (omega arith)
      (λ h. absurd (ground (arith, sends_7, h)))

-- A device of number 1a with a valid certificate.
abbrev no_restrictions : Restrictions
no_restrictions = record { developer = false; others = [] }

abbrev device_1a : Device
device_1a = record {
  firmware = [];
  last_fw_update = 1;
  connect_reason = [];
  device_password = [];
  last_recorded_contact = 1;
  is_simulated = false;
  locale = [];
  compatible = [];
  device_type = [];
  restricted_device = false;
  restriction_details = no_restrictions;
  certificate_expiry_date = 0;
}

abbrev gateway : World
gateway = record {
  now = 1000;
  running = true;
  kafka_enabled = false;
  kafka_disable_state = false;
  kafka_disable_health_checks = false;
  sim_enabled = false;
  simulator_id = [];
  mismatch_depth = 0;
  allow_serial_number_mismatch = false;
  auto_provisioning = false;
  is_black_listed = λ sn. false;
  device_must_upgrade = λ compatible firmware. false;
  device = λ serial. some device_1a;
  stored = λ serial. none;
  current_configuration = λ sn. 0;
  configurations = listed;
  country = [];
  normal = λ text. text;
  pong_is_sent = true;
  rpc = record { rpc = 1; is_sent = true };
  next_rpc = record { rpc = 2; is_sent = false };
  unassigned = 99;
}

abbrev new_connection : ApConnection
new_connection = record {
  session_id = 3;
  uuid = 4;
  dead = false;
  registered = true;
  device_validated = false;
  is_simulated = false;
  serial_number = [];
  serial_number_int = 0;
  cn = [];
  compatible = [];
  errors = 0;
  incoming_frame = [];
  telemetry = no_telemetry;
  restrictions = no_restrictions;
  rtty_must_be_secure = false;
  connected = false;
  verified_certificate = no_certificate;
  last_contact = 0;
  message_count = 0;
  rx = 0;
  state_uuid = 0;
  pending_uuid = 0;
  firmware = [];
  connect_reason = [];
  locale = [];
  certificate_expiry_date = 0;
  cleanups = [];
  effects = [];
}

new_connection-IsFresh : IsFresh new_connection
new_connection-IsFresh = record { alive = refl; no_cleanups = refl; not_validated = refl }

-- Every payload is a JSON-RPC document of no known kind.
abbrev parsed : List ℕ → Document
parsed bytes = other_rpc

abbrev two_ends : List Step
two_ends =
    reads gateway parsed (certified true (49 ∷ 97 ∷ []) 5) (frame 129 (123 ∷ [])) ∷ ends ∷ ends ∷ []

run-IsEnded_example :
    let t = run two_ends new_connection in IsEnded t × (t.dead ≡ true → run (ends ∷ []) t ≡ t)
run-IsEnded_example =
    run-IsEnded false two_ends (ends ∷ []) new_connection (refl, (tt, (tt, tt)))
      new_connection-IsFresh

stays_alive :
    (on_socket_readable gateway parsed
      (certified true (49 ∷ 97 ∷ []) 5)
      (frame 129 (123 ∷ []))
      new_connection).dead
    ≡ false
unfolding on_socket_readable validated_device valid_serial_number stoull from_hex admit is_sim same
    process_incoming_frame process_operation finish_frame process_ws_final_payload count_frame
    process_document unless_errors
stays_alive = refl

abbrev last_reading : List Step
last_reading = reads gateway parsed (certified true (49 ∷ 97 ∷ []) 5) (frame 129 (123 ∷ [])) ∷ []

reading-IsAdmitted_example : IsAdmitted (HasShown last_reading) false (
    on_socket_readable gateway parsed
      (certified true (49 ∷ 97 ∷ []) 5)
      (frame 129 (123 ∷ []))
      new_connection)
unfolding run
reading-IsAdmitted_example =
    reading-IsAdmitted false [] new_connection tt new_connection-IsFresh gateway parsed
      (certified true (49 ∷ 97 ∷ []) 5) (frame 129 (123 ∷ [])) refl stays_alive

-- A device of number 1a, compared before, that gives itself the number 2b.
abbrev params : ConnectParams
params = record {
  uuid = 0;
  firmware = [];
  password = [];
  reason = none;
  compatible = [];
  platform = [];
  restrictions = none;
  developer = none;
  secure_rtty = none;
}

abbrev compared : ApConnection
compared = record new_connection {
  device_validated = true;
  serial_number = 49 ∷ 97 ∷ [];
  serial_number_int = 26;
  cn = 49 ∷ 97 ∷ [];
  verified_certificate = verified;
}

number_2b : stoull (50 ∷ 98 ∷ []) ≡ some 43
unfolding stoull from_hex
number_2b = refl

process_connect-dead_example :
    let t = (process_connect gateway (some params) (50 ∷ 98 ∷ []) compared).0 in
    (t.dead ≡ false) × ((t.serial_number ≡ 50 ∷ 98 ∷ []) × (t.connected ≡ true))
process_connect-dead_example =
    process_connect-dead gateway params (50 ∷ 98 ∷ []) 43 device_1a compared number_2b refl

abbrev two_pieces : List Piece
two_pieces =
    (record { world = gateway; flags = 1; bytes = 123 ∷ [] })
    ∷ (record { world = gateway; flags = 0; bytes = 34 ∷ [] })
    ∷ []

assemble-whole_example :
    process_incoming_frame gateway parsed
      (frame 128 (125 ∷ []))
      (assemble parsed two_pieces compared)
    ≡ process_incoming_frame gateway parsed
        (frame 128 (bytes_of two_pieces ++ (125 ∷ [])))
        (record compared { message_count = 2 })
assemble-whole_example =
    assemble-whole two_pieces gateway parsed 128 (125 ∷ []) compared
      (
        record { text = refl; not_final = refl; not_gone = refl },
        (record { text = refl; not_final = refl; not_gone = refl }, tt),
      )
      refl refl
