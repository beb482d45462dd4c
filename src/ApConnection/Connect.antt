-- ===== src/ApConnection/Connect.antt =====
-- The event by which a device introduces itself, `Process_connect` of AP_WS_Process_connect.cpp.
use wlan_cloud_ucentralgw.Base.{
  ℕ, ◌/◌, ◌^◌, Bool, true, false, not, ◌&&◌, ◌||◌, Option, none, some, [], ◌∷◌, ◌++◌, ◌==◌,
  if◌then◌else◌,
}
use wlan_cloud_ucentralgw.Base.Table.{Text, same}
use wlan_cloud_ucentralgw.Serials.{stoull}
use wlan_cloud_ucentralgw.ApConnection.Upgrade.{Upgrade, look_for_upgrade}
use wlan_cloud_ucentralgw.ApConnection.Link.{
  Certificate, no_certificate, valid_certificate, mismatch_serial, verified, simulated,
  Restrictions, Device, clears_queue, starts_session, creates_device, updates_device,
  updates_capabilities, looks_for_upgrade, sends_upgrade, notifies_connected, firmware_changed,
  not_provisioned, posts_message, ApConnection, World, emit, count_error, end_connection, is_sim,
}

-- The members of the event: the three that it must have, and the optional ones. The capabilities
-- are the compatible name, the platform (in lower case) and the restrictions.
pub record ConnectParams : Type 0 where
  pub uuid : ℕ
  pub firmware : Text
  pub password : Text
  pub reason : Option Text
  pub compatible : Text
  pub platform : Text
  pub restrictions : Option Restrictions
  pub developer : Option Bool
  pub secure_rtty : Option Bool

abbrev pub is_true : Bool → Bool → Bool
is_true true b = b
is_true false b = not b

abbrev pub same_restrictions : Restrictions → Restrictions → Bool
same_restrictions a b = is_true a.developer b.developer && same a.others b.others

abbrev pub is_simulator : Certificate → Bool
is_simulator simulated = true
is_simulator no_certificate = false
is_simulator valid_certificate = false
is_simulator mismatch_serial = false
is_simulator verified = false

-- A field that is to have a value, and `++Updated` if it has another.
abbrev pub unless_same : Bool → (Device → Device) → Device × Bool → Device × Bool
unless_same true f r = r
unless_same false f (d, updated) = (f d, true)

abbrev pub firmware_update : ℕ → Text → Device → Device × Bool
firmware_update now [] d = (d, false)
firmware_update now (c ∷ firmware) d =
    if same (c ∷ firmware) d.firmware
    then if d.last_fw_update == 0 then (record d { last_fw_update = now }, true) else (d, false)
    else (record d { firmware = c ∷ firmware; last_fw_update = now }, true)

abbrev pub give_reason : Option Text → Device × Bool → Device × Bool
give_reason none r = r
give_reason (some reason) (d, updated) = (record d { connect_reason = reason }, true)

abbrev pub password_or_default : Text → Text
password_or_default [] = 111 ∷ 112 ∷ 101 ∷ 110 ∷ 119 ∷ 105 ∷ 102 ∷ 105 ∷ []
password_or_default (c ∷ password) = c ∷ password

-- What is stored of a device that is known, and whether it has changed.
unfoldable pub update_device : ℕ → ConnectParams → ApConnection → Device → Device × Bool
update_device now p s d =
    let r1 = give_reason p.reason (firmware_update now p.firmware d) in
    let r2 =
      unless_same (same r1.0.device_password p.password)
        (λ x. record x { device_password = password_or_default p.password }) r1 in
    let r3 =
      unless_same (not (r2.0.last_recorded_contact == 0))
        (λ x. record x { last_recorded_contact = now }) r2 in
    let sim = is_simulator s.verified_certificate in
    let r4 =
      unless_same (is_true r3.0.is_simulated sim) (λ x. record x { is_simulated = sim }) r3 in
    let r5 = unless_same (same r4.0.locale s.locale) (λ x. record x { locale = s.locale }) r4 in
    let r6 =
      unless_same (same r5.0.compatible s.compatible) (λ x. record x { compatible = s.compatible })
        r5 in
    let r7 =
      unless_same (same r6.0.device_type p.platform) (λ x. record x { device_type = p.platform })
        r6 in
    let restricted : Bool = elim p.restrictions [ none ↦ false | some r ↦ true ] in
    let r8 =
      unless_same (is_true restricted r7.0.restricted_device)
        (λ x. record x { restricted_device = restricted }) r7 in
    let r9 =
      unless_same (same_restrictions s.restrictions r8.0.restriction_details)
        (λ x. record x { restriction_details = s.restrictions }) r8 in
    unless_same (r9.0.certificate_expiry_date == s.certificate_expiry_date)
      (λ x. record x { certificate_expiry_date = s.certificate_expiry_date }) r9

-- The connection takes the serial number that the event names, and with it the queue of commands
-- and the session.
unfoldable pub introduce : World → Text → ℕ → ConnectParams → ApConnection → ApConnection
introduce w serial sn p s =
    let restrictions : Restrictions = elim p.restrictions [ none ↦ s.restrictions | some r ↦ r ] in
    record s {
      serial_number = serial;
      serial_number_int = sn;
      compatible = p.compatible;
      state_uuid = p.uuid;
      firmware = p.firmware;
      pending_uuid = 0;
      connect_reason = elim p.reason [ none ↦ s.connect_reason | some r ↦ r ];
      restrictions = record restrictions {
        developer = elim p.developer [ none ↦ restrictions.developer | some b ↦ b ];
      };
      rtty_must_be_secure = elim p.secure_rtty [ none ↦ s.rtty_must_be_secure | some b ↦ b ];
      locale = w.country;
      effects = s.effects ++ (clears_queue sn ∷ starts_session s.session_id sn ∷ []);
    }

-- What `LookForUpgrade` is given of this connection.
abbrev pub upgrade_of : World → ApConnection → Upgrade
upgrade_of w s = record {
  pending_uuid = s.pending_uuid;
  stored = w.stored s.serial_number;
  current = w.current_configuration s.serial_number_int;
  sent = [];
}

unfoldable pub upgrade_connection : World → ℕ → ApConnection → ApConnection
upgrade_connection w uuid s =
    let r = look_for_upgrade w.configurations uuid (upgrade_of w s) in
    let t : ApConnection = record s {
      pending_uuid = r.state.pending_uuid;
      effects = s.effects ++ (looks_for_upgrade s.serial_number r.state ∷ []);
    } in
    if s.is_simulated
    then s
    else if r.result
    then record t { state_uuid = elim r.upgraded_uuid [ none ↦ 0 | some u ↦ u ] }
    else t

-- `SerialNumberMatch`, false where it throws.
unfoldable pub serial_number_match : Text → ℕ → ℕ → Bool
serial_number_match a b bits = elim (stoull a) [
  | none ↦ false
  | some n ↦ n / 2 ^ bits == b / 2 ^ bits
]

abbrev pub is_matched : World → ApConnection → Bool
is_matched w s =
    serial_number_match s.cn s.serial_number_int w.mismatch_depth
    || (is_sim s.cn && same s.cn w.simulator_id)

-- The certificate against the serial number that the device has given; false if the device is
-- rejected.
unfoldable pub compare_certificate : World → ApConnection → ApConnection × Bool
compare_certificate w s =
    if is_matched w s
    then (record s { verified_certificate = verified }, true)
    else (record s { verified_certificate = mismatch_serial }, w.allow_serial_number_mismatch)

-- Only a certificate that has not been compared yet is compared.
unfoldable pub check_certificate : World → ApConnection → ApConnection × Bool
check_certificate w s = elim s.verified_certificate [
  | valid_certificate ↦ compare_certificate w s
  | no_certificate ↦ (s, true)
  | mismatch_serial ↦ (s, true)
  | verified ↦ (s, true)
  | simulated ↦ (s, true)
]

-- `KafkaTopics::CONNECTION` is topic 0.
unfoldable pub complete_connection : World → ℕ → ApConnection → ApConnection
complete_connection w uuid s =
    let (t, good) =
      check_certificate w (record (upgrade_connection w uuid s) { connected = true }) in
    if good
    then emit
        (notifies_connected t.serial_number
          ∷ (if w.kafka_enabled then posts_message 0 t.serial_number ∷ [] else []))
        t
    else end_connection t

-- A device that the storage knows.
unfoldable pub update_known : World → ConnectParams → Device → ApConnection → ApConnection
update_known w p d s =
    let (d', updated) = update_device w.now p s d in
    emit
      (updates_capabilities s.serial_number
          ∷ (if same d'.firmware d.firmware then [] else firmware_changed s.serial_number ∷ [])
        ++ (if updated then updates_device s.serial_number d' ∷ [] else []))
      s

unfoldable pub provision : World → ConnectParams → ApConnection → ApConnection
provision w p s = elim (w.device s.serial_number) [
  | some d ↦ complete_connection w p.uuid (update_known w p d s)
  | none ↦
      if w.auto_provisioning
      then if w.device_must_upgrade s.compatible p.firmware
        then emit (sends_upgrade s.serial_number ∷ []) s
        else complete_connection w p.uuid
            (emit (creates_device s.serial_number (is_simulator s.verified_certificate) ∷ []) s)
      else end_connection (emit (not_provisioned s.serial_number ∷ []) s)
]

-- `Process_connect`, none if a member is missing; false if `SerialNumberToInt` throws.
unfoldable pub process_connect :
    World → Option ConnectParams → Text → ApConnection → ApConnection × Bool
process_connect w none serial s = (count_error s, true)
process_connect w (some p) serial s = elim (stoull serial) [
  | none ↦ (record s { serial_number = serial }, false)
  | some sn ↦ (provision w p (introduce w serial sn p s), true)
]
