-- ===== src/ApConnection/Upgrade.antt =====
-- Which configuration a device gets, `LookForUpgrade` of AP_WS_LookForUpgrade.cpp: the UUID of the
-- configuration that a device reports is compared with the one that is stored.
-- `Configurations` is what the JSON library does with the text of a configuration: `Config::UUID`
-- `Config::SetUUID` and `Config::Valid`. The storage is asked for one device, and told what to store of it.
pub mod Newer
use wlan_cloud_ucentralgw.Base.{
  ℕ, ◌+◌, ◌%◌, ◌^◌, Bool, true, false, not, ◌&&◌, ◌||◌, Option, none, some, List, [], ◌∷◌, ltb,
  ◌==◌, if◌then◌else◌, length,
}
use wlan_cloud_ucentralgw.Base.Table.{Text}

pub record Configurations : Type 0 where
  pub config_uuid : Text → ℕ
  pub set_uuid : ℕ → Text → Text
  pub is_valid : Text → Bool

-- What is stored of a device: `is_switch` stands for the device type of a switch.
pub record StoredDevice : Type 0 where
  pub uuid : ℕ
  pub pending_uuid : ℕ
  pub configuration : Text
  pub pending_configuration : Text
  pub pending_configuration_cmd : Text
  pub is_switch : Bool

-- What `LookForUpgrade` reads and changes: `PendingUUID`, the device as the storage has it (none if
-- `GetDevice` fails) and its entry in the cache of configurations (0 if it has none).
pub record Upgrade : Type 0 where
  pub pending_uuid : ℕ
  pub stored : Option StoredDevice
  pub current : ℕ
  -- The configurations that have been sent as commands, with their UUIDs.
  pub sent : List (ℕ × Text)

-- What a call leaves: the state, `UpgradedUUID` (none if it has not been assigned), and the result.
pub record Looked : Type 0 where
  pub state : Upgrade
  pub upgraded_uuid : Option ℕ
  pub result : Bool

abbrev pub looked : Upgrade → Option ℕ → Bool → Looked
looked u upgraded result = record { state = u; upgraded_uuid = upgraded; result = result }

-- A device whose stored UUID is 0 has the UUID that its configuration says.
abbrev pub stored_uuid : Configurations → StoredDevice → ℕ
stored_uuid c d = if d.uuid == 0 then c.config_uuid d.configuration else d.uuid

-- The stored configuration gets a UUID that is newer than the device's, and is sent.
unfoldable pub send_configuration : Configurations → ℕ → ℕ → StoredDevice → Upgrade → Looked
send_configuration c uuid stored d u =
    let newer = if ltb stored uuid then (uuid + 2) % 2 ^ 64 else stored in
    let configuration = c.set_uuid newer d.configuration in
    looked
      (record u {
        pending_uuid = newer;
        stored =
            some (record d { uuid = newer; pending_uuid = newer; configuration = configuration });
        sent = (newer, configuration) ∷ u.sent;
      })
      (some newer) true

-- The device has the stored configuration: nothing is pending.
unfoldable pub settle_configuration : ℕ → StoredDevice → Upgrade → Looked
settle_configuration uuid d u =
    looked
      (record u {
        pending_uuid = 0;
        stored = some (record d {
          uuid = uuid;
          pending_uuid = 0;
          pending_configuration = [];
          pending_configuration_cmd = [];
        });
        current = uuid;
      })
      (some uuid) false

abbrev pub is_good : ℕ → Upgrade → Bool
is_good uuid u = not (u.current == 0) && (u.current == uuid || u.current == u.pending_uuid)

-- `CompleteDeviceConfigurationChange` of storage/storage_device.cpp: what was pending is stored, and
-- the cache gets its UUID.
unfoldable pub complete_configuration : Configurations → StoredDevice → Upgrade → Upgrade
complete_configuration c d u =
    let configuration =
      if length d.pending_configuration == 0 then d.configuration else d.pending_configuration in
    let pending = if d.pending_uuid == 0 then d.uuid else d.pending_uuid in
    let uuid =
      if pending == 0 && c.is_valid configuration then c.config_uuid configuration else pending in
    record u {
      pending_uuid = 0;
      stored = some (record d {
        uuid = uuid;
        pending_uuid = 0;
        configuration = configuration;
        pending_configuration = [];
      });
      current = uuid;
    }

unfoldable pub compare_configuration : Configurations → ℕ → StoredDevice → Upgrade → Looked
compare_configuration c uuid d u =
    if not (u.pending_uuid == 0) && uuid == u.pending_uuid
    then looked (complete_configuration c d u) (some uuid) true
    else if d.is_switch && ltb (length d.configuration) 20
    then looked u none false
    else if stored_uuid c d == uuid
    then settle_configuration uuid d u
    else send_configuration c uuid (stored_uuid c d) d u

unfoldable pub look_for_upgrade : Configurations → ℕ → Upgrade → Looked
look_for_upgrade c uuid u =
    if uuid == 0
    then looked u none false
    else if is_good uuid u
    then looked (record u { pending_uuid = 0 }) (some uuid) false
    else elim u.stored [ none ↦ looked u none false | some d ↦ compare_configuration c uuid d u ]
