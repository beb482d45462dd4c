-- ===== src/ApConnection/Telemetry.antt =====
-- The telemetry of a connection, AP_WS_Connection.cpp and AP_WS_Process_telemetry.cpp: its clients
-- are counted, and the device is told when to start and when to stop.
-- Each function holds `TelemetryMutex_` or `ConnectionMutex_`; they are taken as not overlapping.
pub mod Orders
pub mod Told
use wlan_cloud_ucentralgw.Base.{
  ℕ, suc, ◌+◌, ◌-◌, ◌%◌, ◌^◌, Bool, true, false, ◌&&◌, ◌||◌, List, [], ◌∷◌, ◌++◌, ltb, ◌==◌,
  if◌then◌else◌,
}
use wlan_cloud_ucentralgw.Base.Table.{Text}

-- One call of `Send`: the number of the message, and whether `Send` says that the device got it.
pub record Sending : Type 0 where
  pub rpc : ℕ
  pub is_sent : Bool

-- What the code tries to tell the device: to start, with the interval and the types that were asked
-- for (the message names three types when there are none), or to stop.
pub data Order : Type 0 where
  start : Sending → ℕ → List Text → Order
  stop : Sending → Order

-- Where telemetry data go.
pub data Outlet : Type 0 where
  web_sockets kafka ad_hoc : Text → Outlet

pub record Telemetry : Type 0 where
  pub reporting : Bool
  pub web_socket_ref_count : ℕ
  pub kafka_ref_count : ℕ
  pub web_socket_timer : ℕ
  pub kafka_timer : ℕ
  pub interval : ℕ
  pub web_socket_packets : ℕ
  pub kafka_packets : ℕ
  -- `webSocketClients` and `kafkaClients` of `State_`.
  pub web_socket_clients : ℕ
  pub kafka_clients : ℕ
  -- All that was tried, whether or not it got through.
  pub orders : List Order
  pub delivered : List Outlet

-- A connection before its first telemetry.
abbrev pub no_telemetry : Telemetry
no_telemetry = record {
  reporting = false;
  web_socket_ref_count = 0;
  kafka_ref_count = 0;
  web_socket_timer = 0;
  kafka_timer = 0;
  interval = 0;
  web_socket_packets = 0;
  kafka_packets = 0;
  web_socket_clients = 0;
  kafka_clients = 0;
  orders = [];
  delivered = [];
}

-- It returns what `Send` says, `is_sent`; the message is not sent again. Its callers return the same.
unfoldable pub start_telemetry : Sending → List Text → Telemetry → Telemetry
start_telemetry rpc types t = record t { orders = t.orders ++ (start rpc t.interval types ∷ []) }

-- `StopTelemetry`: packets, timers and interval are forgotten, the counts of clients are not.
unfoldable pub stop_telemetry : Sending → Telemetry → Telemetry
stop_telemetry rpc t = record t {
  kafka_packets = 0;
  web_socket_packets = 0;
  interval = 0;
  kafka_timer = 0;
  web_socket_timer = 0;
  orders = t.orders ++ (stop rpc ∷ []);
}

unfoldable pub update_counts : Telemetry → Telemetry
update_counts t = record t {
  kafka_clients = t.kafka_ref_count;
  web_socket_clients = t.web_socket_ref_count;
}

-- The smaller interval, where zero is none yet.
abbrev pub shorter_interval : ℕ → ℕ → ℕ
shorter_interval interval current =
    if current == 0 then interval else if ltb interval current then interval else current

abbrev pub later : ℕ → ℕ → ℕ
later timer current = if ltb current timer then timer else current

abbrev pub begin_reporting : Sending → List Text → Telemetry → Telemetry
begin_reporting rpc types t =
    if t.reporting then t else start_telemetry rpc types (record t { reporting = true })

unfoldable pub set_web_socket_telemetry_reporting :
    Sending → ℕ → ℕ → ℕ → List Text → Telemetry → Telemetry
set_web_socket_telemetry_reporting rpc interval life_time now types t = begin_reporting rpc types (
    update_counts (record t {
      web_socket_ref_count = (t.web_socket_ref_count + 1) % 2 ^ 64;
      interval = shorter_interval interval t.interval;
      web_socket_timer = later ((life_time + now) % 2 ^ 64) t.web_socket_timer;
    }))

unfoldable pub set_kafka_telemetry_reporting :
    Sending → ℕ → ℕ → ℕ → List Text → Telemetry → Telemetry
set_kafka_telemetry_reporting rpc interval life_time now types t = begin_reporting rpc types (
    update_counts (record t {
      kafka_ref_count = (t.kafka_ref_count + 1) % 2 ^ 64;
      interval = shorter_interval interval t.interval;
      kafka_timer = later ((life_time + now) % 2 ^ 64) t.kafka_timer;
    }))

abbrev pub unless_counted : Sending → Telemetry → Telemetry
unless_counted rpc t =
    if t.web_socket_ref_count == 0 && t.kafka_ref_count == 0
    then stop_telemetry rpc (record t { reporting = false })
    else t

unfoldable pub stop_web_socket_telemetry : Sending → Telemetry → Telemetry
stop_web_socket_telemetry rpc t =
    unless_counted rpc
      (update_counts (record t { web_socket_ref_count = t.web_socket_ref_count - 1 }))

unfoldable pub stop_kafka_telemetry : Sending → Telemetry → Telemetry
stop_kafka_telemetry rpc t =
    unless_counted rpc (update_counts (record t { kafka_ref_count = t.kafka_ref_count - 1 }))

-- The member `data` of a telemetry event: missing, an object (as it is printed with the time), or
-- something else, whose extraction throws.
pub data TelemetryData : Type 0 where
  no_data bad_data : TelemetryData
  payload : Text → TelemetryData

abbrev pub for_web_sockets : ℕ → Sending → Text → Telemetry → Telemetry
for_web_sockets now rpc p t =
    if t.web_socket_ref_count == 0
    then t
    else if ltb now t.web_socket_timer
    then record t {
      web_socket_packets = (t.web_socket_packets + 1) % 2 ^ 64;
      delivered = t.delivered ++ (web_sockets p ∷ []);
    }
    else stop_web_socket_telemetry rpc t

abbrev pub for_kafka : Bool → ℕ → Sending → Text → Telemetry → Telemetry
for_kafka enabled now rpc p t =
    if t.kafka_ref_count == 0
    then t
    else if enabled && ltb now t.kafka_timer
    then record t {
      kafka_packets = (t.kafka_packets + 1) % 2 ^ 64;
      delivered = t.delivered ++ (kafka p ∷ []);
    }
    else stop_kafka_telemetry rpc t

-- `Process_telemetry` behind the test that the device is connected; false if it throws.
unfoldable pub process_telemetry :
    Bool → ℕ → Sending → Sending → Bool → TelemetryData → Telemetry → Telemetry × Bool
process_telemetry enabled now rpc next_rpc adhoc no_data t =
    if t.reporting || adhoc then (t, true) else (stop_telemetry rpc t, true)
process_telemetry enabled now rpc next_rpc adhoc bad_data t =
    if t.reporting || adhoc then (t, false) else (stop_telemetry rpc t, true)
process_telemetry enabled now rpc next_rpc adhoc (payload p) t =
    if t.reporting || adhoc
    then if adhoc
      then (record t { delivered = t.delivered ++ (ad_hoc p ∷ []) }, true)
      else (for_kafka enabled now next_rpc p (for_web_sockets now rpc p t), true)
    else (stop_telemetry rpc t, true)
