-- ===== src/Lib.antt =====
-- The OpenWiFi gateway controller: access points connect over web sockets, operators send them
-- commands over a REST interface, and RADIUS traffic of the access points is proxied.
--
-- Parts and files. Paths are those of the repository.
--   Base, Base/*: numbers, Booleans, lists, and the `std::map` that the parts share, with numbers (Base/Dict)
--     and strings (Base/Table) as keys: entries in the order of their keys, as an iteration sees them.
--   Sessions, Sessions/*: the registry of connections, src/AP_WS_Server.h and src/AP_WS_Server.cpp:
--     AddConnection, StartSession, EndSession, Disconnect, Connected, SendFrame, and in
--     Sessions/Zombies the garbage collector and the queue that CleanupSessions drains. Sessions/Spec
--     is the abstract registry: two partial functions.
--   Commands, Commands/*: the command manager, src/CommandManager.h and src/CommandManager.cpp:
--     PostCommand (Commands/Post), the loop over the answers of devices (Commands/Answer), the
--     janitor (Commands/Janitor) and the scheduler (Commands/Scheduler).
--   Radius, Radius/*: src/RADIUS_helpers.h: ParseRadius (Radius/Parse), the packet with its
--     constructor, AppendAttribute, RemoveAttribute and the functions that find an attribute (Radius/Packet), and in
--     Radius/Wire the encoding of attributes that RFC 2865 prescribes.
--   Tracker, Tracker/*: the RADIUS sessions of the access points, src/RADIUSSessionTracker.h and
--     src/RADIUSSessionTracker.cpp: what accounting, authentication and disconnection notifications
--     do to them, and the garbage collection. It reads the packets that Radius models.
--   Serials, Serials/*: the cache of serial numbers, src/SerialNumberCache.h and
--     src/SerialNumberCache.cpp, with IntToSerialNumber of src/framework/utils.cpp.
--   RateLimiter, RateLimiter/*: IsRateLimited of src/framework/RESTAPI_RateLimiter.h.
--   Rtty, Rtty/*: the RTTY server, src/rttys/RTTYS_server.h and src/rttys/RTTYS_server.cpp: its tables (Rtty),
--     the messages of devices (Rtty/Messages, Rtty/Device), browsers and the timer (Rtty/Browser), and
--     all its operations as the steps of one machine (Rtty/Steps).
--   ApConnection, ApConnection/*: the connection of one access point, src/AP_WS_Connection.h,
--     src/AP_WS_Connection.cpp, src/AP_WS_LookForUpgrade.cpp and src/AP_WS_Process_*.cpp: its state, its end and
--     the validation of its device (ApConnection/Link), its frames (ApConnection/Frames), the events in them
--     (ApConnection/Events), the event by which a device introduces itself (ApConnection/Connect), the
--     configurations that it is sent (ApConnection/Upgrade) and its telemetry (ApConnection/Telemetry).
--   Destination, Destination/*: the connection to the servers of a RADIUS pool, src/RADIUS_Destination.h: the
--     loop that connects, the keep-alives, SendData and Disconnect.
--   TelemetryStream, TelemetryStream/*: who receives the telemetry of which device, src/TelemetryStream.h and
--     src/TelemetryStream.cpp.
--   WifiScan, WifiScan/*: the parser of Wifi scans, src/ParseWifiScan.h: JSON (WifiScan/Json), the readers of bytes
--     and bits (WifiScan/Bytes), the tables of texts (WifiScan/Labels), the elements (WifiScan/Elements, Rates,
--     Envelope, Ht, Vht, Rsn, Wpa and Vendor of WifiScan) and the walk through the answer (WifiScan/Scan).
--
-- How state and operations correspond. An object is a record, an operation a function from state
-- to state; each critical section is one step, and a history is a list of steps. A shared pointer
-- is an index into a heap, a promise is a number, kept with the answer that it got. A statement that
-- may throw is a step of a small monad (Commands/Answer) in which the changes before the throw stay. The registry is asked by the
-- scheduler through the record World, as are the clock and the storage service, whose writes are
-- logged. JSON payloads are read through the members that the code reads.
-- A connection of an access point asks the rest of the gateway through its record World, and lists what
-- it has others do as effects; the JSON library is the function from payloads to documents. Whether a
-- message about telemetry gets through is an input of the call that sends it.
-- What sockets do with the bytes that the RTTY server gives them is its parameter Net.
--
-- In the parser of Wifi scans a read past the end of a vector, which C++ leaves undefined, has no result.
-- JSON values are a data type there, with the assignments of nlohmann's library; the decoder of base 64,
-- the conversion of a number with a fraction and the printer of JSON are parameters.
--
-- Bounds and fuel. Ids and ages have 64 bits, packet sizes 16, attribute lengths 8 and 32; each
-- wraps where the code's does. ParseRadius has its own bound of 25 rounds. The loop of the scheduler
-- runs on fuel, one round for each command of the storage and one more, since a round takes a command
-- away; the loop over the messages of a device on one round for each byte that waits and one more,
-- since a round takes a header out of the buffer. The loops of the parser of Wifi scans run on the
-- numbers that the elements hold, and the printing of a number on ten digits, which 32 bits do not exceed.
--
-- Taken as given: operations of one object do not overlap, also where PostCommand holds another
-- mutex than the other operations of the command manager. The move of bytes of RemoveAttribute has no
-- result where it leaves the array.
--
-- Not modelled: logging, statistics, sockets and threads; the storage behind its interface; the
-- JSON, web socket and RADIUS libraries; the REST handlers.
pub mod ApConnection
pub mod Base
pub mod Commands
pub mod Destination
pub mod Radius
pub mod RateLimiter
pub mod Rtty
pub mod Serials
pub mod Sessions
pub mod TelemetryStream
pub mod Tracker
pub mod WifiScan
