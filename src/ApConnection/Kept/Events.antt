-- ===== src/ApConnection/Kept/Events.antt =====
-- What each event of a device leaves of its connection, the AP_WS_Process_*.cpp files.
use wlan_cloud_ucentralgw.Base.{refl, Bool, true, false, not, none, some, if_elim}
use wlan_cloud_ucentralgw.Base.Table.{Text}
use wlan_cloud_ucentralgw.ApConnection.Telemetry.{TelemetryData}
use wlan_cloud_ucentralgw.ApConnection.Link.{ApConnection, World, valid_serial_number}
use wlan_cloud_ucentralgw.ApConnection.Events.{
  Event, connect, state, health_check, log, ping, venue_broadcast, crash_log, reboot_log,
  cfg_pending, recovery, device_update, telemetry_data, device_event, alarm, wifi_scan,
  process_state, process_healthcheck, process_log, process_crashlog, process_rebootlog,
  process_recovery, process_deviceupdate, process_telemetry_event, process_event, process_wifiscan,
  process_alarm, process_venuebroadcast, dispatch_event, Params, not_object, corrupt, unparsable,
  object, process_json_rpc_event,
}
use wlan_cloud_ucentralgw.ApConnection.Kept.{
  IsKept, IsKept-refl, emit-IsKept, count_error-IsKept, if_connected-IsKept, upgrade_state-IsKept,
  post_if-IsKept, process_connect-IsKept,
}

process_telemetry_event-IsKept :
    (w : World) (adhoc : Bool) (d : TelemetryData) (s : ApConnection)
    → IsKept s (process_telemetry_event w adhoc d s).0
unfolding process_telemetry_event
process_telemetry_event-IsKept w adhoc d s =
    if_elim {A = ApConnection × Bool} (λ r. IsKept s r.0) s.connected
      (λ q. record { cn = refl; validated = refl; certificate = refl; ended = λ v. v })
      (λ q. count_error-IsKept (IsKept-refl s))

dispatch_event-IsKept :
    (w : World) (serial : Text) (event : Event) (s : ApConnection)
    → IsKept s (dispatch_event w serial event s).0
unfolding dispatch_event process_state process_healthcheck process_log process_crashlog
    process_rebootlog process_recovery process_deviceupdate process_event process_wifiscan
    process_alarm process_venuebroadcast
dispatch_event-IsKept w serial (connect p) s = process_connect-IsKept w p serial s
dispatch_event-IsKept w serial (state none) s = if_connected-IsKept (IsKept-refl s) (IsKept-refl s)
dispatch_event-IsKept w serial (state (some r)) s =
    if_connected-IsKept (IsKept-refl s)
      (emit-IsKept (upgrade_state-IsKept (IsKept-refl s) w r.uuid) _)
dispatch_event-IsKept w serial (health_check none) s =
    if_connected-IsKept (IsKept-refl s) (IsKept-refl s)
dispatch_event-IsKept w serial (health_check (some r)) s =
    if_connected-IsKept (IsKept-refl s) (emit-IsKept (IsKept-refl s) _)
dispatch_event-IsKept w serial (log complete) s =
    if_connected-IsKept (IsKept-refl s)
      (if_elim (IsKept s) complete (λ q. emit-IsKept (IsKept-refl s) _) (λ q. IsKept-refl s))
dispatch_event-IsKept w serial (crash_log none) s = IsKept-refl s
dispatch_event-IsKept w serial (crash_log (some uuid)) s = emit-IsKept (IsKept-refl s) _
dispatch_event-IsKept w serial (reboot_log none) s = IsKept-refl s
dispatch_event-IsKept w serial (reboot_log (some uuid)) s = emit-IsKept (IsKept-refl s) _
dispatch_event-IsKept w serial (ping complete) s = IsKept-refl s
dispatch_event-IsKept w serial (cfg_pending complete) s =
    if_connected-IsKept (IsKept-refl s) (IsKept-refl s)
dispatch_event-IsKept w serial (recovery none) s = IsKept-refl s
dispatch_event-IsKept w serial (recovery (some reboot)) s = emit-IsKept (IsKept-refl s) _
dispatch_event-IsKept w serial (device_update none) s =
    if_connected-IsKept (IsKept-refl s) (IsKept-refl s)
dispatch_event-IsKept w serial (device_update (some password)) s =
    if_connected-IsKept (IsKept-refl s) (emit-IsKept (IsKept-refl s) _)
dispatch_event-IsKept w serial (telemetry_data adhoc d) s =
    process_telemetry_event-IsKept w adhoc d s
dispatch_event-IsKept w serial (venue_broadcast none) s = IsKept-refl s
dispatch_event-IsKept w serial (venue_broadcast (some text)) s = emit-IsKept (IsKept-refl s) _
dispatch_event-IsKept w serial (device_event none) s =
    if_connected-IsKept (IsKept-refl s) (IsKept-refl s)
dispatch_event-IsKept w serial (device_event (some rrm)) s =
    if_connected-IsKept (IsKept-refl s) (post_if-IsKept (IsKept-refl s) _ _)
dispatch_event-IsKept w serial (alarm complete) s =
    if_connected-IsKept (IsKept-refl s) (post_if-IsKept (IsKept-refl s) _ _)
dispatch_event-IsKept w serial (wifi_scan complete) s =
    if_connected-IsKept (IsKept-refl s) (post_if-IsKept (IsKept-refl s) _ _)

pub process_json_rpc_event-IsKept :
    (w : World) (known : Bool) (params : Params) (s : ApConnection)
    → IsKept s (process_json_rpc_event w known params s).0
unfolding process_json_rpc_event
process_json_rpc_event-IsKept w false params s = count_error-IsKept (IsKept-refl s)
process_json_rpc_event-IsKept w true not_object s = count_error-IsKept (IsKept-refl s)
process_json_rpc_event-IsKept w true corrupt s = count_error-IsKept (IsKept-refl s)
process_json_rpc_event-IsKept w true unparsable s = IsKept-refl s
process_json_rpc_event-IsKept w true (object none event) s = IsKept-refl s
process_json_rpc_event-IsKept w true (object (some text) event) s =
    if_elim {A = ApConnection × Bool} (λ r. IsKept s r.0)
      (not (valid_serial_number (w.normal text))) (λ q. IsKept-refl s)
      (λ q.
        if_elim {A = ApConnection × Bool} (λ r. IsKept s r.0)
          (w.is_black_listed s.serial_number_int) (λ h. emit-IsKept (IsKept-refl s) _)
          (λ h. dispatch_event-IsKept w (w.normal text) event s))
