-- ===== src/Rtty.antt =====
-- The RTTY server, rttys/RTTYS_server.h and rttys/RTTYS_server.cpp: terminal sessions between a
-- device, which connects to a socket, and a browser, which connects a web socket.
-- An end point is an index into a heap, a socket is its file descriptor. What sockets do with the
-- bytes that they are given is the parameter `Net`; every operation holds `ServerMutex_`, so it is
-- one step.
pub mod Messages
pub mod Device
pub mod Browser
pub mod Steps
pub mod Secured
pub mod Stream
pub mod Total
pub mod Keys
pub mod Timer
mod Tests
use wlan_cloud_ucentralgw.Base.{
  ℕ, suc, ◌+◌, ◌%◌, ◌^◌, Bool, true, false, Option, none, some, List, [], ◌∷◌, ◌++◌, ◌==◌,
  if◌then◌else◌, length,
}
use wlan_cloud_ucentralgw.Base.Dict.{Dict, find, assign, erase}
use wlan_cloud_ucentralgw.Base.Table.{Text, Table, get_entry, put_entry, drop_entry}

-- `WSSocket_`: not there, a web socket with its descriptor, or one that has been closed.
pub data ClientSocket : Type 0 where
  no_client closed_client : ClientSocket
  open_client : ℕ → ClientSocket

pub record EndPoint : Type 0 where
  pub id : Text
  pub token : Text
  pub serial_number : Text
  pub user_name : Text
  pub device_is_attached : Bool
  pub device_fd : Option ℕ
  pub ws_socket : ClientSocket
  pub sid : ℕ
  pub completed : Bool
  pub mtls : Bool
  -- `DeviceSocket_`, none while it is a socket that was never connected.
  pub device_socket : Option ℕ
  pub created : ℕ
  pub rx : ℕ
  pub tx : ℕ

-- `SecureSocketPair`: whether the certificate is valid, and the bytes that wait.
pub record SocketPair : Type 0 where
  pub valid : Bool
  pub buffer : List ℕ

-- What is sent to a browser: the answer to a login, or terminal data.
pub data ClientMessage : Type 0 where
  login_message : ℕ → ClientMessage
  binary : List ℕ → ClientMessage

pub record RttyServer : Type 0 where
  pub heap : ℕ → EndPoint
  pub allocated : ℕ
  pub end_points : Table ℕ
  pub connected : Dict ℕ
  pub clients : Dict ℕ
  pub sockets : Dict SocketPair
  pub total_end_points : ℕ
  pub max_concurrent_sessions : ℕ
  -- What has been sent, by descriptor.
  pub to_devices : List (ℕ × List ℕ)
  pub to_clients : List (ℕ × ClientMessage)

-- `device_sends fd bytes` is what `sendBytes` returns, none if it throws; `client_sends` is false if
-- `sendFrame` throws; `stale` is the byte that stands at the start of an empty buffer.
pub record Net : Type 0 where
  pub device_sends : ℕ → List ℕ → Option ℕ
  pub client_sends : ℕ → ClientMessage → Bool
  pub stale : ℕ

unfoldable pub modify : ℕ → (EndPoint → EndPoint) → RttyServer → RttyServer
modify e f s = record s { heap = λ i. if e == i then f (s.heap i) else s.heap i }

-- `SendBytes`: the end point counts the bytes before they are sent.
unfoldable pub send_bytes : Net → ℕ → Option ℕ → List ℕ → RttyServer → RttyServer × Option ℕ
send_bytes net e none bytes s =
    (modify e (λ x. record x { tx = (x.tx + length bytes) % 2 ^ 64 }) s, none)
send_bytes net e (some fd) bytes s = (
  record (modify e (λ x. record x { tx = (x.tx + length bytes) % 2 ^ 64 }) s) {
    to_devices = s.to_devices ++ ((fd, bytes) ∷ []);
  },
  net.device_sends fd bytes,
)

-- `SendToClient`, on a `WSSocket_` that is not null; false if it throws.
unfoldable pub send_to_client : Net → ClientSocket → ClientMessage → RttyServer → RttyServer × Bool
send_to_client net no_client message s = (s, false)
send_to_client net closed_client message s = (s, false)
send_to_client net (open_client fd) message s =
    if net.client_sends fd message
    then (record s { to_clients = s.to_clients ++ ((fd, message) ∷ []) }, true)
    else (s, false)

abbrev pub has_client : ClientSocket → Bool
has_client no_client = false
has_client closed_client = true
has_client (open_client fd) = true

-- `RemoveClientEventHandlers` and `close`, as both `EndConnection` do.
unfoldable pub close_client : ℕ → RttyServer → RttyServer
close_client e s = elim (s.heap e).ws_socket [
  | no_client ↦ s
  | closed_client ↦ s
  | open_client fd ↦
      modify e (λ x. record x { ws_socket = closed_client })
        (record s { clients = erase fd s.clients })
]

-- `RemoveSocket` and the erasure from `Connected_`.
unfoldable pub remove_device : ℕ → RttyServer → RttyServer
remove_device fd s = record s { sockets = erase fd s.sockets; connected = erase fd s.connected }

-- `EndConnection` of an end point.
unfoldable pub end_connection : ℕ → RttyServer → RttyServer
end_connection e s =
    let t : RttyServer = elim (s.heap e).device_fd [ none ↦ s | some fd ↦ remove_device fd s ] in
    let u = close_client e t in record u { end_points = drop_entry (s.heap e).id u.end_points }

-- `EndConnection` of a device's socket.
unfoldable pub end_socket : ℕ → RttyServer → RttyServer
end_socket fd s = elim (find fd s.connected) [
  | none ↦ remove_device fd s
  | some e ↦
      let u = close_client e (remove_device fd s) in
      record u { end_points = drop_entry (s.heap e).id u.end_points }
]

-- `AddNewSocket`, behind the handshake and the check of the certificate.
unfoldable pub add_new_socket : ℕ → Bool → RttyServer → RttyServer
add_new_socket fd valid s = record s {
  sockets = assign fd (record { valid = valid; buffer = [] }) s.sockets;
}

-- `CreateEndPoint`; `locked` is false if the mutex could not be got for ten seconds.
unfoldable pub create_end_point :
    Bool → ℕ → Text → Text → Text → Text → Bool → RttyServer → RttyServer × Bool
create_end_point locked now id token user serial mtls s =
    let full =
      if s.max_concurrent_sessions == 0
      then false
      else length s.end_points == s.max_concurrent_sessions in
    let e : EndPoint = record {
      id = id;
      token = token;
      serial_number = serial;
      user_name = user;
      device_is_attached = false;
      device_fd = none;
      ws_socket = no_client;
      sid = 0;
      completed = false;
      mtls = mtls;
      device_socket = none;
      created = now;
      rx = 0;
      tx = 0;
    } in
    if locked
    then if full then (s, false) else (
      record s {
        heap = λ i. if s.allocated == i then e else s.heap i;
        allocated = suc s.allocated;
        end_points = put_entry id s.allocated s.end_points;
        total_end_points = (s.total_end_points + 1) % 2 ^ 64;
      },
      true,
    )
    else (s, false)

-- `ValidId`
unfoldable pub valid_id : Text → RttyServer → Bool
valid_id id s = elim (get_entry id s.end_points) [ none ↦ false | some e ↦ true ]
