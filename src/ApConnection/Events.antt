-- ===== src/ApConnection/Events.antt =====
-- The events of a device and what they do, the `Process_…` functions of AP_WS_Process_*.cpp and
-- `ProcessJSONRPCEvent` of AP_WS_Connection.cpp.
-- An event is read through its members; none where one that it must have is missing. A result is a
-- connection, and false if the event throws. Members that cannot be converted to their types, and
-- the last statistics and health check that a connection keeps to be shown, are left out.
use wlan_cloud_ucentralgw.Base.{
  ℕ, Bool, true, false, not, ◌&&◌, Option, none, some, [], ◌∷◌, ◌++◌, if◌then◌else◌,
}
use wlan_cloud_ucentralgw.Base.Table.{Text}
use wlan_cloud_ucentralgw.ApConnection.Telemetry.{TelemetryData, process_telemetry}
use wlan_cloud_ucentralgw.ApConnection.Upgrade.{look_for_upgrade}
use wlan_cloud_ucentralgw.ApConnection.Link.{
  looks_for_upgrade, adds_statistics, adds_health_check, sets_command_result, adds_log,
  sets_password, reboots, notifies_statistics, black_listed, posts_message, broadcasts,
  ApConnection, World, emit, count_error, unless_empty, valid_serial_number,
}
use wlan_cloud_ucentralgw.ApConnection.Connect.{ConnectParams, upgrade_of, process_connect}

-- UUID, the data as a text, and the UUID of the request that the device answers (empty if none).
pub record Report : Type 0 where
  pub uuid : ℕ
  pub text : Text
  pub request_uuid : Text

-- `rrm` says whether the type of an event begins with `rrm.`; none if it cannot be read.
pub data Event : Type 0 where
  connect : Option ConnectParams → Event
  state health_check : Option Report → Event
  log ping : Bool → Event
  crash_log reboot_log : Option ℕ → Event
  cfg_pending : Bool → Event
  recovery : Option Bool → Event
  device_update : Option Text → Event
  -- The serial number as the event spells it.
  venue_broadcast : Option Text → Event
  telemetry_data : Bool → TelemetryData → Event
  device_event : Option Bool → Event
  alarm wifi_scan : Bool → Event

-- Most events count as errors until the device is connected.
abbrev pub if_connected : ApConnection → ApConnection → ApConnection
if_connected s t = if s.connected then t else count_error s

-- `LookForUpgrade` whose result is not looked at: `State_.UUID` gets whatever is in the variable.
unfoldable pub upgrade_state : World → ℕ → ApConnection → ApConnection
upgrade_state w uuid s =
    let r = look_for_upgrade w.configurations uuid (upgrade_of w s) in
    if s.is_simulated then s else record s {
      pending_uuid = r.state.pending_uuid;
      state_uuid = elim r.upgraded_uuid [ none ↦ w.unassigned | some u ↦ u ];
      effects = s.effects ++ (looks_for_upgrade s.serial_number r.state ∷ []);
    }

-- The topics of Kafka: 1 state, 2 health checks, 3 wifi scans, 4 alerts, 5 events, 6 radio resources.
unfoldable pub process_state : World → Option Report → ApConnection → ApConnection
process_state w none s = if_connected s s
process_state w (some r) s = if_connected s (
    emit
      (adds_statistics s.serial_number r.uuid r.text
          ∷ unless_empty r.request_uuid (sets_command_result r.request_uuid r.text ∷ [])
        ++ (if w.kafka_enabled && not w.kafka_disable_state
            then posts_message 1 s.serial_number ∷ []
            else [])
        ++ (notifies_statistics s.serial_number ∷ []))
      (upgrade_state w r.uuid s))

-- An empty check is an empty document.
abbrev pub or_empty_document : Text → Text
or_empty_document [] = 123 ∷ 125 ∷ []
or_empty_document (c ∷ text) = c ∷ text

unfoldable pub process_healthcheck : World → Option Report → ApConnection → ApConnection
process_healthcheck w none s = if_connected s s
process_healthcheck w (some r) s =
    let text = or_empty_document r.text in
    if_connected s (
      emit
        (adds_health_check s.serial_number r.uuid text
            ∷ unless_empty r.request_uuid (sets_command_result r.request_uuid text ∷ [])
          ++ (if w.kafka_enabled && not w.kafka_disable_health_checks
              then posts_message 2 s.serial_number ∷ []
              else []))
        s)

-- A log has type 0, a crash 1, a reboot 2.
unfoldable pub process_log : Bool → ApConnection → ApConnection
process_log complete s =
    if_connected s (if complete then emit (adds_log s.serial_number 0 s.state_uuid ∷ []) s else s)

unfoldable pub process_crashlog : Option ℕ → ApConnection → ApConnection
process_crashlog none s = s
process_crashlog (some uuid) s = emit (adds_log s.serial_number 1 uuid ∷ []) s

unfoldable pub process_rebootlog : Option ℕ → ApConnection → ApConnection
process_rebootlog none s = s
process_rebootlog (some uuid) s = emit (adds_log s.serial_number 2 uuid ∷ []) s

-- The device is told to reboot if it says that it needs to.
unfoldable pub process_recovery : Option Bool → ApConnection → ApConnection
process_recovery none s = s
process_recovery (some reboot) s =
    emit (adds_log s.serial_number 1 0 ∷ (if reboot then reboots s.serial_number ∷ [] else [])) s

-- The password is stored under the serial number of the event.
unfoldable pub process_deviceupdate : Text → Option Text → ApConnection → ApConnection
process_deviceupdate serial none s = if_connected s s
process_deviceupdate serial (some password) s =
    if_connected s (emit (sets_password serial password ∷ []) s)

unfoldable pub process_telemetry_event :
    World → Bool → TelemetryData → ApConnection → ApConnection × Bool
process_telemetry_event w adhoc d s =
    let (t, good) = process_telemetry w.kafka_enabled w.now w.rpc w.next_rpc adhoc d s.telemetry in
    if s.connected then (record s { telemetry = t }, good) else (count_error s, true)

abbrev pub post_if : Bool → ℕ → ApConnection → ApConnection
post_if enabled topic s = if enabled then emit (posts_message topic s.serial_number ∷ []) s else s

unfoldable pub process_event : World → Option Bool → ApConnection → ApConnection
process_event w none s = if_connected s s
process_event w (some rrm) s = if_connected s (post_if w.kafka_enabled (if rrm then 6 else 5) s)

unfoldable pub process_wifiscan : World → Bool → ApConnection → ApConnection
process_wifiscan w complete s = if_connected s (post_if (complete && w.kafka_enabled) 3 s)

unfoldable pub process_alarm : World → Bool → ApConnection → ApConnection
process_alarm w complete s = if_connected s (post_if (complete && w.kafka_enabled) 4 s)

unfoldable pub process_venuebroadcast : Option Text → ApConnection → ApConnection
process_venuebroadcast none s = s
process_venuebroadcast (some text) s = emit (broadcasts text ∷ []) s

-- The cases of `ProcessJSONRPCEvent`.
unfoldable pub dispatch_event : World → Text → Event → ApConnection → ApConnection × Bool
dispatch_event w serial (connect p) s = process_connect w p serial s
dispatch_event w serial (state r) s = (process_state w r s, true)
dispatch_event w serial (health_check r) s = (process_healthcheck w r s, true)
dispatch_event w serial (log complete) s = (process_log complete s, true)
dispatch_event w serial (crash_log uuid) s = (process_crashlog uuid s, true)
dispatch_event w serial (reboot_log uuid) s = (process_rebootlog uuid s, true)
dispatch_event w serial (ping complete) s = (s, true)
dispatch_event w serial (cfg_pending complete) s = (if_connected s s, true)
dispatch_event w serial (recovery reboot) s = (process_recovery reboot s, true)
dispatch_event w serial (device_update password) s = (process_deviceupdate serial password s, true)
dispatch_event w serial (telemetry_data adhoc d) s = process_telemetry_event w adhoc d s
dispatch_event w serial (venue_broadcast text) s = (process_venuebroadcast text s, true)
dispatch_event w serial (device_event rrm) s = (process_event w rrm s, true)
dispatch_event w serial (alarm complete) s = (process_alarm w complete s, true)
dispatch_event w serial (wifi_scan complete) s = (process_wifiscan w complete s, true)

-- The member `params`: not an object; compressed, and corrupt or without a document in it; or an
-- object, with its serial number if there is one.
pub data Params : Type 0 where
  not_object corrupt unparsable : Params
  object : Option Text → Event → Params

-- `ProcessJSONRPCEvent`; the method is none where it is not known.
unfoldable pub process_json_rpc_event : World → Bool → Params → ApConnection → ApConnection × Bool
process_json_rpc_event w false params s = (count_error s, true)
process_json_rpc_event w true not_object s = (count_error s, true)
process_json_rpc_event w true corrupt s = (count_error s, true)
process_json_rpc_event w true unparsable s = (s, true)
process_json_rpc_event w true (object none event) s = (s, true)
process_json_rpc_event w true (object (some text) event) s =
    let serial = w.normal text in
    if not (valid_serial_number serial)
    then (s, false)
    else if w.is_black_listed s.serial_number_int
    then (emit (black_listed s.cn ∷ []) s, false)
    else dispatch_event w serial event s
