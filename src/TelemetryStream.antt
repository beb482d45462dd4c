-- ===== src/TelemetryStream.antt =====
-- Who receives the telemetry of a device over a web socket, TelemetryStream.h and
-- TelemetryStream.cpp. A client is a number; each operation holds `Mutex_`. Notifications are
-- handled in the order of their queue, so that each is one step.
pub mod Listed
pub mod Subscribed
mod Tests
use wlan_cloud_ucentralgw.Base.{
  ℕ, Bool, true, false, not, ◌&&◌, Option, none, some, List, [], ◌∷◌, ◌++◌, ◌==◌, if◌then◌else◌,
  length,
}
use wlan_cloud_ucentralgw.Base.Dict.{Dict, find, assign}
use wlan_cloud_ucentralgw.Base.Table.{Text, Table, get_entry, put_entry, drop_entry}

-- `std::set<std::string>`
abbrev pub TextSet : Type 0
TextSet = Table (Unit {0})

pub record TelemetryStream : Type 0 where
  pub serial_numbers : Dict TextSet
  -- A client that is none is a null pointer.
  pub clients : Table (Option ℕ)
  -- What has been sent to the clients.
  pub sent : List (ℕ × Text)

abbrev pub is_some {ℓ} : {A : Type ℓ} → Option A → Bool
is_some none = false
is_some (some a) = true

abbrev pub has_uuid : Text → Option TextSet → Bool
has_uuid uuid none = false
has_uuid uuid (some set) = is_some (get_entry uuid set)

-- Whether the set under the serial number has the UUID.
unfoldable pub is_listed : ℕ → Text → Dict TextSet → Bool
is_listed sn uuid m = has_uuid uuid (find sn m)

unfoldable pub is_valid_end_point : ℕ → Text → TelemetryStream → Bool
is_valid_end_point sn uuid s =
    is_some (get_entry uuid s.clients) && is_listed sn uuid s.serial_numbers

abbrev pub set_or_empty : Option TextSet → TextSet
set_or_empty none = []
set_or_empty (some set) = set

-- `SerialNumbers_[SerialNumber]` with the UUID inserted.
unfoldable pub list_uuid : ℕ → Text → Dict TextSet → Dict TextSet
list_uuid sn uuid m = assign sn (put_entry uuid tt (set_or_empty (find sn m))) m

unfoldable pub create_endpoint : ℕ → Text → TelemetryStream → TelemetryStream
create_endpoint sn uuid s = record s {
  serial_numbers = list_uuid sn uuid s.serial_numbers;
  clients = put_entry uuid none s.clients;
}

-- `NewClient`, with none if the client cannot be made.
unfoldable pub new_client : ℕ → Text → Option ℕ → TelemetryStream → TelemetryStream
new_client sn uuid none s = s
new_client sn uuid (some client) s = record s {
  serial_numbers = list_uuid sn uuid s.serial_numbers;
  clients = put_entry uuid (some client) s.clients;
}

-- The clients of the set that are there.
unfoldable pub receivers : TextSet → Table (Option ℕ) → List ℕ
receivers [] clients = []
receivers ((uuid, x) ∷ set) clients =
    let rest = receivers set clients in
    elim (get_entry uuid clients) [
      | none ↦ rest
      | some c ↦ elim c [ none ↦ rest | some client ↦ client ∷ rest ]
    ]

unfoldable pub send_all : Text → List ℕ → List (ℕ × Text)
send_all payload [] = []
send_all payload (client ∷ clients) = (client, payload) ∷ send_all payload clients

-- A notification of data; a client whose socket throws is passed over like one that takes it.
unfoldable pub notify_data : ℕ → Text → TelemetryStream → TelemetryStream
notify_data sn payload s = elim (find sn s.serial_numbers) [
  | none ↦ s
  | some set ↦ record s { sent = s.sent ++ send_all payload (receivers set s.clients) }
]

-- The UUID is erased from every set, and a set that is empty then from the map.
unfoldable pub erase_uuid : Text → Dict TextSet → Dict TextSet
erase_uuid uuid [] = []
erase_uuid uuid ((sn, set) ∷ m) =
    let set' = drop_entry uuid set in
    let rest = erase_uuid uuid m in if length set' == 0 then rest else (sn, set') ∷ rest

unfoldable pub unregister : Text → TelemetryStream → TelemetryStream
unregister uuid s =
    if is_some (get_entry uuid s.clients)
    then record s {
      serial_numbers = erase_uuid uuid s.serial_numbers;
      clients = drop_entry uuid s.clients;
    }
    else s
