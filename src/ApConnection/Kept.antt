-- ===== src/ApConnection/Kept.antt =====
-- What the events of a device leave of its connection, AP_WS_Connection.cpp.
pub mod Events
pub mod Frames
use wlan_cloud_ucentralgw.Base.{
  ℕ, ◌+◌, ◌-◌, ◌%◌, ◌^◌, ◌≡◌, refl, sym, ap, ◌∙◌, Bool, true, false, not, ◌&&◌, ◌||◌, Option, none,
  some, List, [], ◌∷◌, ◌++◌, ltb, ◌==◌, if◌then◌else◌, arith, if_elim, length, length-append,
}
use wlan_cloud_ucentralgw.Base.Table.{Text, same}
use wlan_cloud_ucentralgw.Serials.{stoull}
use wlan_cloud_ucentralgw.ApConnection.Telemetry.{Telemetry, TelemetryData, process_telemetry}
use wlan_cloud_ucentralgw.ApConnection.Upgrade.{Configurations, Upgrade, Looked, look_for_upgrade}
use wlan_cloud_ucentralgw.ApConnection.Link.{
  Certificate, no_certificate, valid_certificate, mismatch_serial, verified, simulated, Device,
  Effect, ApConnection, World, emit, count_error, end_connection, is_sim, valid_serial_number,
}
use wlan_cloud_ucentralgw.ApConnection.Connect.{
  ConnectParams, upgrade_of, introduce, upgrade_connection, is_matched, compare_certificate,
  check_certificate, complete_connection, update_known, provision, process_connect,
}
use wlan_cloud_ucentralgw.ApConnection.Events.{
  Report, Event, connect, state, health_check, log, ping, venue_broadcast, crash_log, reboot_log,
  cfg_pending, recovery, device_update, telemetry_data, device_event, alarm, wifi_scan,
  if_connected, upgrade_state, process_state, process_healthcheck, process_log, process_crashlog,
  process_rebootlog, process_recovery, process_deviceupdate, process_telemetry_event, post_if,
  process_event, process_wifiscan, process_alarm, dispatch_event, Params, not_object, corrupt,
  unparsable, object, process_json_rpc_event,
}

abbrev pub has_certificate : Certificate → Bool
has_certificate no_certificate = false
has_certificate valid_certificate = true
has_certificate mismatch_serial = true
has_certificate verified = true
has_certificate simulated = true

-- It is cleaned up once if it is dead, and not before.
abbrev pub IsEnded : ApConnection → Type 0
IsEnded s = length s.cleanups ≡ (if s.dead then 1 else 0)

pub record IsKept (s t : ApConnection) : Type 0 where
  pub cn : t.cn ≡ s.cn
  pub validated : t.device_validated ≡ s.device_validated
  pub certificate : has_certificate t.verified_certificate ≡ has_certificate s.verified_certificate
  pub ended : IsEnded s → IsEnded t

pub IsKept-refl : (s : ApConnection) → IsKept s s
IsKept-refl s = record { cn = refl; validated = refl; certificate = refl; ended = λ v. v }

pub IsKept-trans : {s t u : ApConnection} → IsKept s t → IsKept t u → IsKept s u
IsKept-trans k h = record {
  cn = h.cn ∙ k.cn;
  validated = h.validated ∙ k.validated;
  certificate = h.certificate ∙ k.certificate;
  ended = λ v. h.ended (k.ended v);
}

module _ {s t : ApConnection} (k : IsKept s t) where
  pub emit-IsKept : (new : List Effect) → IsKept s (emit new t)
  unfolding emit
  emit-IsKept new = record {
    cn = k.cn;
    validated = k.validated;
    certificate = k.certificate;
    ended = k.ended;
  }

  pub count_error-IsKept : IsKept s (count_error t)
  unfolding count_error
  count_error-IsKept = record {
    cn = k.cn;
    validated = k.validated;
    certificate = k.certificate;
    ended = k.ended;
  }

  pub end_connection-IsKept : IsKept s (end_connection t)
  unfolding end_connection
  end_connection-IsKept =
      if_elim (IsKept s) t.dead (λ q. k)
        (λ q. record {
          cn = k.cn;
          validated = k.validated;
          certificate = k.certificate;
          ended = λ v.
              length-append t.cleanups ((t.session_id, t.serial_number_int) ∷ [])
              ∙ ap (λ n. n + 1) (k.ended v ∙ ap (λ b. if b then 1 else 0) q);
        })

  pub if_connected-IsKept : {u : ApConnection} → IsKept s u → IsKept s (if_connected t u)
  if_connected-IsKept h = if_elim (IsKept s) t.connected (λ q. h) (λ q. count_error-IsKept)

  upgrade_connection-IsKept : (w : World) (uuid : ℕ) → IsKept s (upgrade_connection w uuid t)
  unfolding upgrade_connection
  upgrade_connection-IsKept w uuid =
      if_elim (IsKept s) t.is_simulated (λ q. k)
        (λ q.
          if_elim (IsKept s) (look_for_upgrade w.configurations uuid (upgrade_of w t)).result
            (λ r. record {
              cn = k.cn;
              validated = k.validated;
              certificate = k.certificate;
              ended = k.ended;
            })
            (λ r. record {
              cn = k.cn;
              validated = k.validated;
              certificate = k.certificate;
              ended = k.ended;
            }))

  -- The certificate is replaced by another one.
  recertified-IsKept :
      (c : Certificate)
      → has_certificate t.verified_certificate ≡ true
      → has_certificate c ≡ true
      → IsKept s (record t { verified_certificate = c })
  recertified-IsKept c h q = record {
    cn = k.cn;
    validated = k.validated;
    certificate = q ∙ sym h ∙ k.certificate;
    ended = k.ended;
  }

  compare_certificate-IsKept :
      (w : World)
      → has_certificate t.verified_certificate ≡ true
      → IsKept s (compare_certificate w t).0
  unfolding compare_certificate
  compare_certificate-IsKept w h =
      if_elim {A = ApConnection × Bool} (λ r. IsKept s r.0) (is_matched w t)
        (λ q. recertified-IsKept verified h refl) (λ q. recertified-IsKept mismatch_serial h refl)

  check_certificate-IsKept : (w : World) → IsKept s (check_certificate w t).0
  unfolding check_certificate
  check_certificate-IsKept w = go t.verified_certificate refl
    where
      go : (c : Certificate) → t.verified_certificate ≡ c → IsKept s (check_certificate w t).0
      go no_certificate q = rw (q, check_certificate) k
      go mismatch_serial q = rw (q, check_certificate) k
      go verified q = rw (q, check_certificate) k
      go simulated q = rw (q, check_certificate) k
      go valid_certificate q =
          rw (q, check_certificate) (compare_certificate-IsKept w (ap has_certificate q))

  connected-IsKept : IsKept s (record t { connected = true })
  connected-IsKept = record {
    cn = k.cn;
    validated = k.validated;
    certificate = k.certificate;
    ended = k.ended;
  }

  introduce-IsKept :
      (w : World) (serial : Text) (sn : ℕ) (p : ConnectParams)
      → IsKept s (introduce w serial sn p t)
  unfolding introduce
  introduce-IsKept w serial sn p = record {
    cn = k.cn;
    validated = k.validated;
    certificate = k.certificate;
    ended = k.ended;
  }

  pub upgrade_state-IsKept : (w : World) (uuid : ℕ) → IsKept s (upgrade_state w uuid t)
  unfolding upgrade_state
  upgrade_state-IsKept w uuid =
      if_elim (IsKept s) t.is_simulated (λ q. k)
        (λ q. record {
          cn = k.cn;
          validated = k.validated;
          certificate = k.certificate;
          ended = k.ended;
        })

  pub post_if-IsKept : (enabled : Bool) (topic : ℕ) → IsKept s (post_if enabled topic t)
  post_if-IsKept enabled topic = if_elim (IsKept s) enabled (λ q. emit-IsKept _) (λ q. k)

complete_connection-IsKept :
    {s t : ApConnection}
    → IsKept s t
    → (w : World) (uuid : ℕ) → IsKept s (complete_connection w uuid t)
unfolding complete_connection
complete_connection-IsKept {s} {t} k w uuid =
    let u : ApConnection = record (upgrade_connection w uuid t) { connected = true } in
    let c = check_certificate-IsKept (connected-IsKept (upgrade_connection-IsKept k w uuid)) w in
    if_elim (IsKept s) (check_certificate w u).1 (λ q. emit-IsKept c _)
      (λ q. end_connection-IsKept c)

provision-IsKept :
    {s t : ApConnection} → IsKept s t → (w : World) (p : ConnectParams) → IsKept s (provision w p t)
unfolding provision update_known
provision-IsKept {s} {t} k w p = go (w.device t.serial_number) refl
  where
    go : (o : Option Device) → w.device t.serial_number ≡ o → IsKept s (provision w p t)
    go (some d) q =
        rw (q, provision, update_known) (complete_connection-IsKept (emit-IsKept k _) w p.uuid)
    go none q =
        rw (q, provision)
          (if_elim (IsKept s) w.auto_provisioning
            (λ h.
              if_elim (IsKept s) (w.device_must_upgrade t.compatible p.firmware)
                (λ m. emit-IsKept k _) (λ m. complete_connection-IsKept (emit-IsKept k _) w p.uuid))
            (λ h. end_connection-IsKept (emit-IsKept k _)))

pub process_connect-IsKept :
    (w : World) (p : Option ConnectParams) (serial : Text) (s : ApConnection)
    → IsKept s (process_connect w p serial s).0
unfolding process_connect
process_connect-IsKept w none serial s = count_error-IsKept (IsKept-refl s)
process_connect-IsKept w (some p) serial s = go (stoull serial) refl
  where
    go : (o : Option ℕ) → stoull serial ≡ o → IsKept s (process_connect w (some p) serial s).0
    go none q =
        rw (q, process_connect)
          (record { cn = refl; validated = refl; certificate = refl; ended = λ v. v })
    go (some sn) q =
        rw (q, process_connect)
          (provision-IsKept (introduce-IsKept (IsKept-refl s) w serial sn p) w p)
