-- ===== src/ApConnection/Frames.antt =====
-- The frames that arrive from a device, `OnSocketReadable`, `ProcessIncomingFrame` and
-- `ProcessWSFinalPayload` of AP_WS_Connection.cpp.
use wlan_cloud_ucentralgw.Base.{
  ℕ, ◌+◌, ◌/◌, ◌%◌, ◌^◌, Bool, true, false, ◌&&◌, ◌||◌, List, [], ◌∷◌, ◌++◌, ltb, ◌==◌,
  if◌then◌else◌, length,
}
use wlan_cloud_ucentralgw.Base.Table.{Text}
use wlan_cloud_ucentralgw.ApConnection.Link.{
  posts_result, sends_radius, sends_pong, posts_message, ApConnection, World, Peer, emit,
  count_error, end_connection, validated_device,
}
use wlan_cloud_ucentralgw.ApConnection.Events.{Params, process_json_rpc_event}

-- What the JSON library makes of a payload: no document, an event (with a method that is known or
-- not), the answer to a command, another JSON-RPC document, a RADIUS packet of kind 0 (accounting),
-- 1 (authentication) or 2 (change of authorisation), a RADIUS document without one, or a document
-- of none of these.
pub data Document : Type 0 where
  no_document other_rpc radius_without_packet other_document : Document
  event : Bool → Params → Document
  answer : Text → Document
  radius_packet : ℕ → List ℕ → Document

-- The payload is cleared unless the document throws.
unfoldable pub process_document : World → Document → ApConnection → ApConnection × Bool
process_document w no_document s = (s, false)
process_document w (event known params) s =
    let (t, good) = process_json_rpc_event w known params s in
    if good then (record t { incoming_frame = [] }, true) else (t, false)
process_document w (answer doc) s =
    (emit (posts_result s.serial_number doc ∷ []) (record s { incoming_frame = [] }), true)
process_document w other_rpc s = (record s { incoming_frame = [] }, true)
process_document w (radius_packet kind bytes) s =
    (emit (sends_radius s.serial_number kind bytes ∷ []) (record s { incoming_frame = [] }), true)
process_document w radius_without_packet s = (record s { incoming_frame = [] }, true)
process_document w other_document s = (count_error (record s { incoming_frame = [] }), true)

-- `ProcessWSFinalPayload`: the accumulated bytes are one document.
unfoldable pub process_ws_final_payload :
    World → (List ℕ → Document) → ApConnection → ApConnection × Bool
process_ws_final_payload w parse s =
    if length s.incoming_frame == 0
    then (s, true)
    else process_document w (parse s.incoming_frame)
        (record s { incoming_frame = s.incoming_frame ++ (0 ∷ []) })

-- What `receiveFrame` does: it throws, has nothing yet, or has the flags and bytes of a frame.
pub data Received : Type 0 where
  throws nothing_yet : Received
  frame : ℕ → List ℕ → Received

-- The end of `ProcessIncomingFrame`.
unfoldable pub unless_errors : Bool → ApConnection → ApConnection
unless_errors kill s =
    if kill then end_connection s else if ltb s.errors 10 then s else end_connection s

-- The bytes of every frame, whatever its operation, are appended to the payload.
unfoldable pub count_frame : World → List ℕ → ApConnection → ApConnection
count_frame w bytes s = record s {
  rx = (s.rx + length bytes) % 2 ^ 64;
  incoming_frame = s.incoming_frame ++ bytes;
  message_count = (s.message_count + 1) % 2 ^ 64;
  last_contact = w.now;
}

unfoldable pub finish_frame : World → (List ℕ → Document) → Bool → ApConnection → ApConnection
finish_frame w parse false s = unless_errors false s
finish_frame w parse true s =
    let (t, good) = process_ws_final_payload w parse s in
    if good then unless_errors false t else unless_errors true t

-- A ping is answered, and told to Kafka. A binary frame returns before `KillConnection` is read.
unfoldable pub process_operation :
    World → (List ℕ → Document) → ℕ → Bool → ApConnection → ApConnection
process_operation w parse op fin s =
    if op == 9
    then if w.pong_is_sent
      then emit
          (sends_pong ∷ (if w.kafka_enabled then posts_message 0 s.serial_number ∷ [] else [])) s
      else unless_errors true s
    else if op == 10
    then s
    else if op == 2
    then s
    else if op == 8
    then unless_errors true s
    else if op == 0 || op == 1
    then finish_frame w parse fin s
    else count_error s

-- `ProcessIncomingFrame`; flags of zero without bytes mean that the device has gone.
unfoldable pub process_incoming_frame :
    World → (List ℕ → Document) → Received → ApConnection → ApConnection
process_incoming_frame w parse throws s = unless_errors true s
process_incoming_frame w parse nothing_yet s = unless_errors false (count_frame w [] s)
process_incoming_frame w parse (frame flags bytes) s =
    if flags == 0 && length bytes == 0
    then end_connection s
    else process_operation w parse (flags % 16) (flags / 128 % 2 == 1) (count_frame w bytes s)

-- `OnSocketReadable`
unfoldable pub on_socket_readable :
    World → (List ℕ → Document) → Peer → Received → ApConnection → ApConnection
on_socket_readable w parse peer received s =
    let t : ApConnection = record s { last_contact = w.now } in
    let (u, valid) = validated_device w peer t in
    if s.dead
    then s
    else if w.running
    then if valid then process_incoming_frame w parse received u else end_connection u
    else end_connection t
