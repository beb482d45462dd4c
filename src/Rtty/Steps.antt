-- ===== src/Rtty/Steps.antt =====
-- The operations of rttys/RTTYS_server.cpp as the steps of one machine, and the servers that it
-- reaches.
use wlan_cloud_ucentralgw.Base.{ℕ, ◌≡◌, Bool, Option, none, List, []}
use wlan_cloud_ucentralgw.Base.Dict.{find}
use wlan_cloud_ucentralgw.Base.Table.{Text}
use wlan_cloud_ucentralgw.Rtty.{RttyServer, Net, create_end_point, add_new_socket, end_socket}
use wlan_cloud_ucentralgw.Rtty.Device.{on_device_readable}
use wlan_cloud_ucentralgw.Rtty.Browser.{
  Frame, create_ws_client, on_client_readable, on_client_shutdown, on_timer,
}

pub data Call : Type 0 where
  creates : Bool → ℕ → Text → Text → Text → Text → Bool → Call
  accepts : ℕ → Bool → Call
  device_reads : ℕ → Option (List ℕ) → Call
  device_ends : ℕ → Call
  client_opens : Option ℕ → Text → Call
  client_reads : ℕ → Frame → Call
  client_ends : ℕ → Call
  timer : ℕ → Call

unfoldable pub step : Net → Call → RttyServer → RttyServer
step net (creates locked now id token user serial mtls) s =
    (create_end_point locked now id token user serial mtls s).0
step net (accepts fd valid) s = add_new_socket fd valid s
step net (device_reads fd received) s = on_device_readable net fd received s
step net (device_ends fd) s = end_socket fd s
step net (client_opens made id) s = create_ws_client net made id s
step net (client_reads fd frame) s = on_client_readable net fd frame s
step net (client_ends fd) s = on_client_shutdown fd s
step net (timer now) s = on_timer now s

-- A socket that is accepted has a descriptor that no open socket has.
abbrev pub IsProper : Call → RttyServer → Type 0
IsProper (accepts fd valid) s = find fd s.sockets ≡ none
IsProper call s = Unit {0}

-- A server before its first operation.
pub record IsNew (s : RttyServer) : Type 0 where
  pub no_end_points : s.end_points ≡ []
  pub no_connected : s.connected ≡ []

-- The servers that are reached, whatever the network does at each step.
pub data Reach : RttyServer → Type 0 where
  new : {s : RttyServer} → IsNew s → Reach s
  next :
      {s : RttyServer} (net : Net) (call : Call)
      → Reach s
      → IsProper call s
      → Reach (step net call s)
