-- ===== src/ApConnection/Link.antt =====
-- The state of a connection, AP_WS_Connection.h, how it ends and how its device is validated,
-- AP_WS_Connection.cpp.
use wlan_cloud_ucentralgw.Base.{
  ℕ, ◌+◌, ◌%◌, ◌^◌, Bool, true, false, not, ◌&&◌, Option, none, some, List, [], ◌∷◌, ◌++◌, ltb,
  ◌==◌, if◌then◌else◌, length, take, all,
}
use wlan_cloud_ucentralgw.Base.Table.{Text, same}
use wlan_cloud_ucentralgw.Serials.{hex_value, stoull}
use wlan_cloud_ucentralgw.ApConnection.Telemetry.{Sending, Telemetry}
use wlan_cloud_ucentralgw.ApConnection.Upgrade.{Configurations, StoredDevice, Upgrade}

-- `GWObjects::CertificateValidation`
pub data Certificate : Type 0 where
  no_certificate valid_certificate mismatch_serial verified simulated : Certificate

-- `DeviceRestrictions`: `developer`, and the other members as one text.
pub record Restrictions : Type 0 where
  pub developer : Bool
  pub others : Text

-- What a device's registration reads and changes of `GWObjects::Device`.
pub record Device : Type 0 where
  pub firmware : Text
  pub last_fw_update : ℕ
  pub connect_reason : Text
  pub device_password : Text
  pub last_recorded_contact : ℕ
  pub is_simulated : Bool
  pub locale : Text
  pub compatible : Text
  pub device_type : Text
  pub restricted_device : Bool
  pub restriction_details : Restrictions
  pub certificate_expiry_date : ℕ

-- What a connection has other parts of the gateway do.
pub data Effect : Type 0 where
  -- `SetDeviceLastRecordedContact`, removal of the handlers, `close`, `DeviceDisconnectionCleanup`.
  records_contact : Text → ℕ → Effect
  removes_handlers closes : Effect
  cleans_up : Text → ℕ → Effect
  -- `ClearQueue`, `StartSession`, `PostCommandResult`, the RADIUS proxy and the kind of its packet.
  clears_queue : ℕ → Effect
  starts_session : ℕ → ℕ → Effect
  posts_result : Text → Text → Effect
  sends_radius : Text → ℕ → List ℕ → Effect
  -- The storage: devices, capabilities, the changes of `LookForUpgrade`, data and passwords.
  creates_device : Text → Bool → Effect
  updates_device : Text → Device → Effect
  updates_capabilities : Text → Effect
  looks_for_upgrade : Text → Upgrade → Effect
  adds_statistics adds_health_check : Text → ℕ → Text → Effect
  sets_command_result : Text → Text → Effect
  adds_log : Text → ℕ → ℕ → Effect
  sets_password : Text → Text → Effect
  -- Messages to the device, and to users and services about it.
  sends_pong : Effect
  sends_upgrade reboots : Text → Effect
  notifies_connected notifies_statistics firmware_changed not_provisioned black_listed :
      Text → Effect
  posts_message : ℕ → Text → Effect
  broadcasts : Text → Effect

pub record ApConnection : Type 0 where
  pub session_id : ℕ
  pub uuid : ℕ
  pub dead : Bool
  pub registered : Bool
  pub device_validated : Bool
  pub is_simulated : Bool
  pub serial_number : Text
  pub serial_number_int : ℕ
  pub cn : Text
  pub compatible : Text
  pub errors : ℕ
  pub incoming_frame : List ℕ
  pub telemetry : Telemetry
  pub restrictions : Restrictions
  pub rtty_must_be_secure : Bool
  -- Of `State_`.
  pub connected : Bool
  pub verified_certificate : Certificate
  pub last_contact : ℕ
  pub message_count : ℕ
  pub rx : ℕ
  pub state_uuid : ℕ
  pub pending_uuid : ℕ
  pub firmware : Text
  pub connect_reason : Text
  pub locale : Text
  pub certificate_expiry_date : ℕ
  -- What `AddCleanupSession` has been given, and all else that has been done.
  pub cleanups : List (ℕ × ℕ)
  pub effects : List Effect

-- What a connection asks the rest of the gateway while it works on one frame: the time, the
-- settings, the storage and the JSON library.
pub record World : Type 0 where
  pub now : ℕ
  pub running : Bool
  pub kafka_enabled : Bool
  pub kafka_disable_state : Bool
  pub kafka_disable_health_checks : Bool
  pub sim_enabled : Bool
  pub simulator_id : Text
  pub mismatch_depth : ℕ
  pub allow_serial_number_mismatch : Bool
  pub auto_provisioning : Bool
  pub is_black_listed : ℕ → Bool
  pub device_must_upgrade : Text → Text → Bool
  pub device : Text → Option Device
  pub stored : Text → Option StoredDevice
  pub current_configuration : ℕ → ℕ
  pub configurations : Configurations
  -- `FindCountryFromIP` for the peer, `Poco::trim` of `Poco::toLower`, whether a pong can be sent.
  pub country : Text
  pub normal : Text → Text
  pub pong_is_sent : Bool
  -- The messages that a reading may send about telemetry.
  pub rpc : Sending
  pub next_rpc : Sending
  -- What stands in a variable that has not been assigned.
  pub unassigned : ℕ

unfoldable pub emit : List Effect → ApConnection → ApConnection
emit new s = record s { effects = s.effects ++ new }

unfoldable pub count_error : ApConnection → ApConnection
count_error s = record s { errors = (s.errors + 1) % 2 ^ 64 }

abbrev pub unless_empty : Text → List Effect → List Effect
unless_empty [] new = []
unless_empty (c ∷ text) new = new

abbrev pub ending : ApConnection → List Effect
ending s =
    (if s.last_contact == 0
      then []
      else unless_empty s.serial_number (records_contact s.serial_number s.last_contact ∷ []))
    ++ (if s.registered then removes_handlers ∷ [] else [])
    ++ closes ∷ unless_empty s.serial_number (cleans_up s.serial_number s.uuid ∷ [])

-- `EndConnection`, whose body only the first call enters.
unfoldable pub end_connection : ApConnection → ApConnection
end_connection s = if s.dead then s else record s {
  dead = true;
  registered = false;
  cleanups = s.cleanups ++ ((s.session_id, s.serial_number_int) ∷ []);
  effects = s.effects ++ ending s;
}

abbrev pub is_xdigit : ℕ → Bool
is_xdigit c = elim (hex_value c) [ none ↦ false | some d ↦ true ]

-- `Utils::ValidSerialNumber`
unfoldable pub valid_serial_number : Text → Bool
valid_serial_number s = ltb (length s) 30 && all is_xdigit s

-- `AP_WS_Server::IsSim`: the text begins with 53494d.
unfoldable pub is_sim : Text → Bool
is_sim s = same (take 6 s) (53 ∷ 51 ∷ 52 ∷ 57 ∷ 52 ∷ 100 ∷ [])

-- What the TLS socket shows: it is not secure, has no certificate, has one with a common name (and
-- whether the certificate is valid, and when it expires), or throws.
pub data Peer : Type 0 where
  broken insecure anonymous : Peer
  certified : Bool → Text → ℕ → Peer

-- The serial number of the certificate is known.
unfoldable pub admit : World → Text → ℕ → ℕ → ApConnection → ApConnection × Bool
admit w cn sn expiry s =
    let t : ApConnection = record s {
      serial_number = cn;
      serial_number_int = sn;
      cn = cn;
      verified_certificate = valid_certificate;
    } in
    let u : ApConnection =
      if is_sim cn then record t { verified_certificate = simulated; is_simulated = true } else t in
    if is_sim cn && not w.sim_enabled
    then (t, false)
    else if not (length cn == 0) && w.is_black_listed sn
    then (emit (black_listed cn ∷ []) u, false)
    else (record u { device_validated = true; certificate_expiry_date = expiry }, true)

-- `ValidatedDevice`. `SerialNumberToInt` throws on a name without digits.
unfoldable pub validated_device : World → Peer → ApConnection → ApConnection × Bool
validated_device w peer s =
    if s.dead then (s, false) else if s.device_validated then (s, true) else elim peer [
      | broken ↦ (end_connection s, false)
      | insecure ↦ (s, false)
      | anonymous ↦ (record s { verified_certificate = no_certificate }, false)
      | certified valid name expiry ↦
          let cn = w.normal name in
          if not valid
          then (record s { verified_certificate = no_certificate }, false)
          else if not (valid_serial_number cn)
          then (record s { cn = cn }, false)
          else elim (stoull cn) [
            | none ↦ (end_connection (record s { cn = cn; serial_number = cn }), false)
            | some sn ↦ admit w cn sn expiry s
          ]
    ]
