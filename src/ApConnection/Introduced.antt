-- ===== src/ApConnection/Introduced.antt =====
-- Which devices may give themselves a serial number, AP_WS_Process_connect.cpp.
use wlan_cloud_ucentralgw.Base.{
  ℕ, ◌≡◌, refl, ◌∙◌, Bool, true, false, not, ◌&&◌, ◌||◌, some, arith, if_elim, inl, inr, Bool-cases,
}
use wlan_cloud_ucentralgw.Base.Table.{Text, same}
use wlan_cloud_ucentralgw.Serials.{stoull}
use wlan_cloud_ucentralgw.ApConnection.Upgrade.{look_for_upgrade}
use wlan_cloud_ucentralgw.ApConnection.Link.{
  Certificate, no_certificate, valid_certificate, mismatch_serial, verified, simulated, Device,
  ApConnection, World, emit, end_connection, is_sim,
}
use wlan_cloud_ucentralgw.ApConnection.Connect.{
  ConnectParams, introduce, upgrade_of, upgrade_connection, serial_number_match, is_matched,
  compare_certificate, check_certificate, complete_connection, update_known, provision,
  process_connect,
}

-- The certificate is valid and has not been compared with a serial number yet.
abbrev pub is_uncompared : Certificate → Bool
is_uncompared valid_certificate = true
is_uncompared no_certificate = false
is_uncompared mismatch_serial = false
is_uncompared verified = false
is_uncompared simulated = false

-- Whether a device is turned away that gives itself the serial number.
abbrev pub is_turned_away : World → Certificate → Text → ℕ → Bool
is_turned_away w c cn sn =
    is_uncompared c
    && (not (serial_number_match cn sn w.mismatch_depth || (is_sim cn && same cn w.simulator_id))
        && not w.allow_serial_number_mismatch)

-- The fields by which a device is known.
record IsSame (s t : ApConnection) : Type 0 where
  dead : t.dead ≡ s.dead
  cn : t.cn ≡ s.cn
  certificate : t.verified_certificate ≡ s.verified_certificate
  serial_number : t.serial_number ≡ s.serial_number
  serial_number_int : t.serial_number_int ≡ s.serial_number_int

upgrade_connection-IsSame :
    (w : World) (uuid : ℕ) (s : ApConnection) → IsSame s (upgrade_connection w uuid s)
unfolding upgrade_connection
upgrade_connection-IsSame w uuid s =
    let same_all : (t : ApConnection) → Type 0 = λ t. IsSame s t in
    if_elim same_all s.is_simulated
      (λ q. record {
        dead = refl;
        cn = refl;
        certificate = refl;
        serial_number = refl;
        serial_number_int = refl;
      })
      (λ q.
        if_elim same_all (look_for_upgrade w.configurations uuid (upgrade_of w s)).result
          (λ r. record {
            dead = refl;
            cn = refl;
            certificate = refl;
            serial_number = refl;
            serial_number_int = refl;
          })
          (λ r. record {
            dead = refl;
            cn = refl;
            certificate = refl;
            serial_number = refl;
            serial_number_int = refl;
          }))

-- What `check_certificate` leaves.
record IsChecked (w : World) (s : ApConnection) (r : ApConnection × Bool) : Type 0 where
  good : r.1 ≡ not (is_turned_away w s.verified_certificate s.cn s.serial_number_int)
  dead : r.0.dead ≡ s.dead
  serial_number : r.0.serial_number ≡ s.serial_number
  connected : r.0.connected ≡ s.connected

check_certificate-IsChecked : (w : World) (s : ApConnection) → IsChecked w s (check_certificate w s)
unfolding check_certificate compare_certificate
check_certificate-IsChecked w s = go s.verified_certificate refl
  where
    go : (c : Certificate) → s.verified_certificate ≡ c → IsChecked w s (check_certificate w s)
    go no_certificate q = record {
      good = rw (q, check_certificate) refl;
      dead = rw (q, check_certificate) refl;
      serial_number = rw (q, check_certificate) refl;
      connected = rw (q, check_certificate) refl;
    }
    go mismatch_serial q = record {
      good = rw (q, check_certificate) refl;
      dead = rw (q, check_certificate) refl;
      serial_number = rw (q, check_certificate) refl;
      connected = rw (q, check_certificate) refl;
    }
    go verified q = record {
      good = rw (q, check_certificate) refl;
      dead = rw (q, check_certificate) refl;
      serial_number = rw (q, check_certificate) refl;
      connected = rw (q, check_certificate) refl;
    }
    go simulated q = record {
      good = rw (q, check_certificate) refl;
      dead = rw (q, check_certificate) refl;
      serial_number = rw (q, check_certificate) refl;
      connected = rw (q, check_certificate) refl;
    }
    go valid_certificate q = elim (Bool-cases (is_matched w s)) [
      | inl m ↦ record {
        good = rw (q, check_certificate) (rw m refl);
        dead = rw (q, check_certificate) (rw m refl);
        serial_number = rw (q, check_certificate) (rw m refl);
        connected = rw (q, check_certificate) (rw m refl);
      }
      | inr m ↦ record {
        good = rw (q, check_certificate) (rw m (ground arith));
        dead = rw (q, check_certificate) (rw m refl);
        serial_number = rw (q, check_certificate) (rw m refl);
        connected = rw (q, check_certificate) (rw m refl);
      }
    ]

-- What a device finds that has given itself the serial number of `s`: the connection has ended if
-- it was turned away.
pub record IsAnswered (w : World) (s t : ApConnection) : Type 0 where
  pub dead : t.dead ≡ (s.dead || is_turned_away w s.verified_certificate s.cn s.serial_number_int)
  pub serial_number : t.serial_number ≡ s.serial_number
  pub connected : t.connected ≡ true

complete_connection-IsAnswered :
    (w : World) (uuid : ℕ) (s : ApConnection) → IsAnswered w s (complete_connection w uuid s)
unfolding complete_connection emit end_connection
complete_connection-IsAnswered w uuid s =
    let u : ApConnection = record (upgrade_connection w uuid s) { connected = true } in
    let i = upgrade_connection-IsSame w uuid s in
    let c = check_certificate-IsChecked w u in
    let turned = is_turned_away w s.verified_certificate s.cn s.serial_number_int in
    let good : (check_certificate w u).1 ≡ not turned =
      c.good ∙ rw (i.certificate, i.cn, i.serial_number_int) refl in
    let r = (check_certificate w u).0 in
    let alive : r.dead ≡ s.dead = c.dead ∙ i.dead in
    let named : r.serial_number ≡ s.serial_number = c.serial_number ∙ i.serial_number in
    if_elim (IsAnswered w s) (check_certificate w u).1
      (λ q. record {
        dead = ground (arith, alive, good, q);
        serial_number = named;
        connected = c.connected;
      })
      (λ q.
        if_elim (IsAnswered w s) r.dead
          (λ h. record {
            dead = ground (arith, alive, good, q, h);
            serial_number = named;
            connected = c.connected;
          })
          (λ h. record {
            dead = ground (arith, alive, good, q, h);
            serial_number = named;
            connected = c.connected;
          }))

-- Let a device that the storage knows give itself a serial number that can be read as a number,
-- `sn`. It is turned away, and the connection ended, exactly if its certificate is valid, has not
-- been compared before, does not match the number, and mismatches are not allowed. In every other
-- case the connection stays as alive as it was and goes on under that serial number: so it does for
-- a device whose certificate was compared with another serial number before.
pub process_connect-dead :
    (w : World) (p : ConnectParams) (serial : Text) (sn : ℕ) (d : Device) (s : ApConnection)
    → stoull serial ≡ some sn
    → w.device serial ≡ some d
    → let t = (process_connect w (some p) serial s).0 in
      (t.dead ≡ (s.dead || is_turned_away w s.verified_certificate s.cn sn))
      × ((t.serial_number ≡ serial) × (t.connected ≡ true))
unfolding introduce emit update_known process_connect provision
process_connect-dead w p serial sn d s q known =
    let a =
      complete_connection-IsAnswered w p.uuid (update_known w p d (introduce w serial sn p s)) in
    rw (q, process_connect, known, provision) (a.dead, (a.serial_number, a.connected))
