-- ===== src/ApConnection/Upgrade/Newer.antt =====
-- The configurations that AP_WS_LookForUpgrade.cpp sends, and the device that takes one.
use mathlib.Core.Path.{subst}
use wlan_cloud_ucentralgw.Base.{
  ℕ, ◌+◌, ◌%◌, ◌^◌, ◌<◌, ◌≡◌, ◌≢◌, ◌⊎◌, refl, sym, ap, ◌∙◌, true, false, not, ◌&&◌, Option, none,
  some, List, ◌∷◌, ltb, ◌==◌, if◌then◌else◌, arith, inl, inr, if_elim, length,
}
use wlan_cloud_ucentralgw.Base.Table.{Text}
use wlan_cloud_ucentralgw.ApConnection.Upgrade.{
  Configurations, StoredDevice, Upgrade, Looked, looked, stored_uuid, send_configuration,
  settle_configuration, is_good, complete_configuration, compare_configuration, look_for_upgrade,
}

-- What a call that sends a configuration leaves.
pub record IsSent (c : Configurations) (uuid : ℕ) (u : Upgrade) (r : Looked) : Type 0 where
  pub newer : ℕ
  pub device : StoredDevice
  pub is_newer : uuid < newer
  pub one_more : r.state.sent ≡ (newer, device.configuration) ∷ u.sent
  pub pending : r.state.pending_uuid ≡ newer
  pub stored : r.state.stored ≡ some device
  pub stored_newer : device.uuid ≡ newer
  pub pending_newer : device.pending_uuid ≡ newer
  pub same_current : r.state.current ≡ u.current
  pub told : r.upgraded_uuid ≡ some newer
  pub result : r.result ≡ true

send_configuration-IsSent :
    (c : Configurations) (uuid stored : ℕ) (d : StoredDevice) (u : Upgrade)
    → uuid + 2 < 2 ^ 64
    → stored ≢ uuid
    → IsSent c uuid u (send_configuration c uuid stored d u)
unfolding send_configuration
send_configuration-IsSent c uuid stored d u small other =
    let newer = if ltb stored uuid then (uuid + 2) % 2 ^ 64 else stored in
    record {
      newer = newer;
      device = record d {
        uuid = newer;
        pending_uuid = newer;
        configuration = c.set_uuid newer d.configuration;
      };
      is_newer = ground (arith, small, other);
      one_more = refl;
      pending = refl;
      stored = refl;
      stored_newer = refl;
      pending_newer = refl;
      same_current = refl;
      told = refl;
      result = refl;
    }

-- Each call sends one configuration or none. The one that it sends is the stored configuration with
-- a UUID that is greater than the one that the device reported (which is less than 2 ^ 64 - 2);
-- that UUID is the one that is stored and pending from then on.
pub look_for_upgrade-IsSent :
    (c : Configurations) (uuid : ℕ) (u : Upgrade)
    → uuid + 2 < 2 ^ 64
    → let r = look_for_upgrade c uuid u in (r.state.sent ≡ u.sent) ⊎ IsSent c uuid u r
unfolding look_for_upgrade compare_configuration settle_configuration complete_configuration
look_for_upgrade-IsSent c uuid u small =
    if_elim P (uuid == 0) (λ q. inl refl)
      (λ q. if_elim P (is_good uuid u) (λ g. inl refl) (λ g. go u.stored))
  where
    P : Looked → Type 0
    P r = (r.state.sent ≡ u.sent) ⊎ IsSent c uuid u r

    go :
        (o : Option StoredDevice)
        → P (elim o [ none ↦ looked u none false | some d ↦ compare_configuration c uuid d u ])
    go none = inl refl
    go (some d) =
        if_elim P (not (u.pending_uuid == 0) && uuid == u.pending_uuid) (λ q. inl refl)
          (λ q.
            if_elim P (d.is_switch && ltb (length d.configuration) 20) (λ h. inl refl)
              (λ h.
                if_elim P (stored_uuid c d == uuid) (λ e. inl refl)
                  (λ e. inr (
                    send_configuration-IsSent c uuid (stored_uuid c d) d u small
                      (ground (arith, e))))))

-- What a device and its storage are when the device has taken the configuration `sent`, whose UUID
-- is `uuid`, where `log` are the configurations that were sent.
pub record IsSettled (log : List (ℕ × Text)) (uuid : ℕ) (sent : StoredDevice) (r : Looked)
    : Type 0 where
  pub nothing_sent : r.state.sent ≡ log
  pub nothing_pending : r.state.pending_uuid ≡ 0
  pub device : StoredDevice
  pub stored : r.state.stored ≡ some device
  pub same_uuid : device.uuid ≡ uuid
  pub same_configuration :
      length sent.pending_configuration ≡ 0 → device.configuration ≡ sent.configuration
  pub either_configuration :
      (device.configuration ≡ sent.configuration)
      ⊎ (device.configuration ≡ sent.pending_configuration)
  pub told : r.upgraded_uuid ≡ some uuid

look_for_upgrade-IsSettled :
    (c : Configurations) (uuid : ℕ) (u : Upgrade) (d : StoredDevice)
    → u.pending_uuid ≡ uuid
    → uuid ≢ 0
    → u.stored ≡ some d
    → d.uuid ≡ uuid
    → d.pending_uuid ≡ uuid
    → IsSettled u.sent uuid d (look_for_upgrade c uuid u)
unfolding look_for_upgrade compare_configuration complete_configuration
look_for_upgrade-IsSettled c uuid u d p some_uuid stored same pending =
    if_elim P (uuid == 0) (λ z. absurd (ground (arith, some_uuid, z)))
      (λ z.
        if_elim P (is_good uuid u)
          (λ g. record {
            nothing_sent = refl;
            nothing_pending = refl;
            device = d;
            stored = stored;
            same_uuid = same;
            same_configuration = λ h. refl;
            either_configuration = inl refl;
            told = refl;
          })
          (λ g.
            subst
              (λ o.
                P (elim o [
                  | none ↦ looked u none false
                  | some d ↦ compare_configuration c uuid d u
                ]))
              (sym stored)
              (if_elim P (not (u.pending_uuid == 0) && uuid == u.pending_uuid) (λ q. completed)
                (λ q. absurd (ground (arith, q, p, some_uuid))))))
  where
    P : Looked → Type 0
    P r = IsSettled u.sent uuid d r

    completed : P (looked (complete_configuration c d u) (some uuid) true)
    completed = record {
      nothing_sent = refl;
      nothing_pending = refl;
      device = _;
      stored = refl;
      same_uuid = ground (arith, pending, some_uuid);
      same_configuration = λ h. rw h refl;
      either_configuration =
          if_elim (λ x. (x ≡ d.configuration) ⊎ (x ≡ d.pending_configuration))
            (length d.pending_configuration == 0) (λ q. inl refl) (λ q. inr refl);
      told = refl;
    }

-- When a call has sent something, that is one configuration, whose UUID is greater than the one that
-- the device reported (which is less than 2 ^ 64 - 2) and is pending, and whose text is that of the
-- device stored then. When the device reports that UUID next, then nothing is sent, nothing is
-- pending any more, and the storage has that UUID. Its configuration then is the one that was sent
-- or the one that the stored device had pending, and the one that was sent if none was pending. This
-- holds whatever the cache of configurations has by then.
pub look_for_upgrade-settles :
    (c : Configurations) (uuid current : ℕ) (u : Upgrade)
    → uuid + 2 < 2 ^ 64
    → let r = look_for_upgrade c uuid u in
      r.state.sent ≢ u.sent
      → (d : StoredDevice) × ((uuid < r.state.pending_uuid)
          × (r.state.stored ≡ some d)
          × ((r.state.sent ≡ (r.state.pending_uuid, d.configuration) ∷ u.sent)
              × IsSettled r.state.sent r.state.pending_uuid d
                  (look_for_upgrade c r.state.pending_uuid (record r.state { current = current }))))
look_for_upgrade-settles c uuid current u small sends =
    let r = look_for_upgrade c uuid u in
    elim (look_for_upgrade-IsSent c uuid u small) [
      | inl same ↦ absurd (sends same)
      | inr s ↦ (
        s.device,
        (
          omega (arith, s.pending, s.is_newer),
          s.stored,
          (
            s.one_more ∙ ap (λ k. (k, s.device.configuration) ∷ u.sent) (sym s.pending),
            look_for_upgrade-IsSettled c r.state.pending_uuid (record r.state { current = current })
                s.device refl (omega (arith, s.pending, s.is_newer)) s.stored
                (s.stored_newer ∙ sym s.pending) (s.pending_newer ∙ sym s.pending),
          ),
        ),
      )
    ]
