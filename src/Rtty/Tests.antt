-- ===== src/Rtty/Tests.antt =====
-- The RTTY server of rttys/RTTYS_server.cpp at concrete sessions.
use wlan_cloud_ucentralgw.Base.{
  ℕ, ◌≡◌, refl, true, false, none, some, List, [], ◌∷◌, ◌++◌, ◌==◌, if◌then◌else◌, arith, length,
}
use wlan_cloud_ucentralgw.Base.Dict.{find}
use wlan_cloud_ucentralgw.Base.Table.{same, get_entry}
use wlan_cloud_ucentralgw.Rtty.{EndPoint, RttyServer, Net, no_client, open_client}
use wlan_cloud_ucentralgw.Rtty.Browser.{on_timer}
use wlan_cloud_ucentralgw.Rtty.Steps.{accepts, device_reads, step, Reach, new, next}
use wlan_cloud_ucentralgw.Rtty.Secured.{IsSecured}
use wlan_cloud_ucentralgw.Rtty.Secured.Reached.{Reach-IsSecured}
use wlan_cloud_ucentralgw.Rtty.Stream.{term_message, stream, payloads}
use wlan_cloud_ucentralgw.Rtty.Stream.Readings.{
  IsReady, terminal, readings, bytes_of, readings-stream,
}
use wlan_cloud_ucentralgw.Rtty.Timer.{unless_stale, on_timer-find}

-- A network that takes everything.
abbrev good_net : Net
good_net = record {
  device_sends = λ fd bytes. some (length bytes);
  client_sends = λ fd message. true;
  stale = 0;
}

-- The session 1, in which device (socket 7) and browser (web socket 9) have come together.
abbrev point : EndPoint
point = record {
  id = 1 ∷ [];
  token = 2 ∷ [];
  serial_number = [];
  user_name = [];
  device_is_attached = true;
  device_fd = some 7;
  ws_socket = open_client 9;
  sid = 5;
  completed = true;
  mtls = true;
  device_socket = some 7;
  created = 0;
  rx = 0;
  tx = 0;
}

-- The session 3, which nobody has come to.
abbrev lonely : EndPoint
lonely = record point {
  id = 3 ∷ [];
  device_is_attached = false;
  device_fd = none;
  ws_socket = no_client;
  completed = false;
}

abbrev two_sessions : RttyServer
two_sessions = record {
  heap = λ e. if e == 0 then point else lonely;
  allocated = 2;
  end_points = (1 ∷ [], 0) ∷ (3 ∷ [], 1) ∷ [];
  connected = (7, 0) ∷ [];
  clients = (9, 0) ∷ [];
  sockets = (7, record { valid = true; buffer = [] }) ∷ [];
  total_end_points = 2;
  max_concurrent_sessions = 0;
  to_devices = [];
  to_clients = [];
}

two_sessions-IsReady : IsReady 7 0 9 [] two_sessions
unfolding find
two_sessions-IsReady = record {
  connected = refl;
  browser = refl;
  pair = record { valid = true; buffer = [] };
  there = refl;
  waits = refl;
}

-- Two messages in three pieces, cut in the header and in the data.
abbrev pieces : List (ℕ × List ℕ)
pieces = (3, 0 ∷ []) ∷ (3, 5 ∷ 104 ∷ []) ∷ (105, 3 ∷ 0 ∷ 2 ∷ 5 ∷ 33 ∷ []) ∷ []

pieces-stream : bytes_of pieces ≡ stream ((5, 104 ∷ 105 ∷ []) ∷ (5, 33 ∷ []) ∷ [])
unfolding bytes_of stream term_message
pieces-stream = refl

readings-stream_example :
    let t = readings good_net 7 pieces two_sessions in
    IsReady 7 0 9 [] t
    × (terminal 9 t.to_clients
        ≡ terminal 9 [] ++ payloads ((5, 104 ∷ 105 ∷ []) ∷ (5, 33 ∷ []) ∷ []))
unfolding stream term_message
readings-stream_example =
    readings-stream good_net 7 0 9 (λ m. refl) pieces ((5, 104 ∷ 105 ∷ []) ∷ (5, 33 ∷ []) ∷ [])
      two_sessions two_sessions-IsReady pieces-stream (omega arith, (omega arith, tt)) (omega arith)

client_of_9 : find 9 two_sessions.clients ≡ some 0
unfolding find
client_of_9 = refl

takes_all : good_net.device_sends 7 (term_message (5, 97 ∷ [])) ≡ some 5
unfolding term_message
takes_all = refl

both_first :
    (get_entry (1 ∷ []) two_sessions.end_points ≡ some 0)
    × (get_entry (3 ∷ []) two_sessions.end_points ≡ some 1)
unfolding get_entry same
both_first = (refl, refl)

on_timer-find_example :
    get_entry (3 ∷ []) (on_timer 150000 two_sessions).end_points
    ≡ unless_stale 150000 two_sessions.heap (get_entry (3 ∷ []) two_sessions.end_points)
on_timer-find_example =
    on_timer-find 150000 two_sessions (refl, (refl, tt)) (both_first.0, (both_first.1, tt)) (3 ∷ [])

abbrev empty_server : RttyServer
empty_server = record two_sessions { end_points = []; connected = []; clients = []; sockets = [] }

empty_server-Reach : Reach empty_server
empty_server-Reach = new (record { no_end_points = refl; no_connected = refl })

nothing_at_7 : find 7 empty_server.sockets ≡ none
unfolding find
nothing_at_7 = refl

Reach-IsSecured_example :
    IsSecured (
      step good_net (device_reads 7 (some (0 ∷ []))) (step good_net (accepts 7 false) empty_server))
Reach-IsSecured_example = Reach-IsSecured (
    next good_net (device_reads 7 (some (0 ∷ [])))
      (next good_net (accepts 7 false) empty_server-Reach nothing_at_7) tt)
