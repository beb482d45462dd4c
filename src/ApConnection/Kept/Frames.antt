-- ===== src/ApConnection/Kept/Frames.antt =====
-- What the frames of a device leave of its connection, AP_WS_Connection.cpp.
use wlan_cloud_ucentralgw.Base.{
  ℕ, ◌/◌, ◌%◌, refl, Bool, true, false, ◌&&◌, ◌||◌, List, [], ltb, ◌==◌, if_elim, length,
}
use wlan_cloud_ucentralgw.ApConnection.Link.{ApConnection, World}
use wlan_cloud_ucentralgw.ApConnection.Frames.{
  Document, no_document, other_rpc, radius_without_packet, other_document, event, answer,
  radius_packet, process_document, process_ws_final_payload, Received, throws, nothing_yet, frame,
  unless_errors, count_frame, finish_frame, process_operation, process_incoming_frame,
}
use wlan_cloud_ucentralgw.ApConnection.Kept.{
  IsKept, IsKept-refl, IsKept-trans, emit-IsKept, count_error-IsKept, end_connection-IsKept,
}
use wlan_cloud_ucentralgw.ApConnection.Kept.Events.{process_json_rpc_event-IsKept}

cleared-IsKept :
    {s t : ApConnection} (bytes : List ℕ)
    → IsKept s t
    → IsKept s (record t { incoming_frame = bytes })
cleared-IsKept bytes k = record {
  cn = k.cn;
  validated = k.validated;
  certificate = k.certificate;
  ended = k.ended;
}

process_document-IsKept :
    (w : World) (d : Document) (s : ApConnection) → IsKept s (process_document w d s).0
unfolding process_document
process_document-IsKept w no_document s = IsKept-refl s
process_document-IsKept w (event known params) s =
    let k = process_json_rpc_event-IsKept w known params s in
    if_elim {A = ApConnection × Bool} (λ r. IsKept s r.0) _ (λ q. cleared-IsKept [] k) (λ q. k)
process_document-IsKept w (answer doc) s = emit-IsKept (cleared-IsKept [] (IsKept-refl s)) _
process_document-IsKept w other_rpc s = cleared-IsKept [] (IsKept-refl s)
process_document-IsKept w (radius_packet kind bytes) s =
    emit-IsKept (cleared-IsKept [] (IsKept-refl s)) _
process_document-IsKept w radius_without_packet s = cleared-IsKept [] (IsKept-refl s)
process_document-IsKept w other_document s = count_error-IsKept (cleared-IsKept [] (IsKept-refl s))

unless_errors-IsKept :
    {s t : ApConnection} → IsKept s t → (kill : Bool) → IsKept s (unless_errors kill t)
unfolding unless_errors
unless_errors-IsKept {s} {t} k true = end_connection-IsKept k
unless_errors-IsKept {s} {t} k false =
    if_elim (IsKept s) (ltb t.errors 10) (λ q. k) (λ q. end_connection-IsKept k)

module _ (w : World) (parse : List ℕ → Document) where
  process_ws_final_payload-IsKept :
      (s : ApConnection) → IsKept s (process_ws_final_payload w parse s).0
  unfolding process_ws_final_payload
  process_ws_final_payload-IsKept s =
      if_elim {A = ApConnection × Bool} (λ r. IsKept s r.0) (length s.incoming_frame == 0)
        (λ q. IsKept-refl s)
        (λ q.
          IsKept-trans (cleared-IsKept _ (IsKept-refl s))
            (process_document-IsKept w (parse s.incoming_frame) _))

  finish_frame-IsKept : (fin : Bool) (s : ApConnection) → IsKept s (finish_frame w parse fin s)
  unfolding finish_frame
  finish_frame-IsKept false s = unless_errors-IsKept (IsKept-refl s) false
  finish_frame-IsKept true s =
      let k = process_ws_final_payload-IsKept s in
      if_elim (IsKept s) (process_ws_final_payload w parse s).1 (λ q. unless_errors-IsKept k false)
        (λ q. unless_errors-IsKept k true)

  process_operation-IsKept :
      (op : ℕ) (fin : Bool) (s : ApConnection) → IsKept s (process_operation w parse op fin s)
  unfolding process_operation
  process_operation-IsKept op fin s =
      let k = IsKept-refl s in
      if_elim (IsKept s) (op == 9)
        (λ q.
          if_elim (IsKept s) w.pong_is_sent (λ h. emit-IsKept k _)
            (λ h. unless_errors-IsKept k true))
        (λ q.
          if_elim (IsKept s) (op == 10) (λ h. k)
            (λ h.
              if_elim (IsKept s) (op == 2) (λ i. k)
                (λ i.
                  if_elim (IsKept s) (op == 8) (λ j. unless_errors-IsKept k true)
                    (λ j.
                      if_elim (IsKept s) (op == 0 || op == 1) (λ m. finish_frame-IsKept fin s)
                        (λ m. count_error-IsKept k)))))

  count_frame-IsKept : (bytes : List ℕ) (s : ApConnection) → IsKept s (count_frame w bytes s)
  unfolding count_frame
  count_frame-IsKept bytes s = record {
    cn = refl;
    validated = refl;
    certificate = refl;
    ended = λ v. v;
  }

  pub process_incoming_frame-IsKept :
      (r : Received) (s : ApConnection) → IsKept s (process_incoming_frame w parse r s)
  unfolding process_incoming_frame
  process_incoming_frame-IsKept throws s = unless_errors-IsKept (IsKept-refl s) true
  process_incoming_frame-IsKept nothing_yet s = unless_errors-IsKept (count_frame-IsKept [] s) false
  process_incoming_frame-IsKept (frame flags bytes) s =
      if_elim (IsKept s) (flags == 0 && length bytes == 0)
        (λ q. end_connection-IsKept (IsKept-refl s))
        (λ q.
          IsKept-trans (count_frame-IsKept bytes s)
            (process_operation-IsKept (flags % 16) (flags / 128 % 2 == 1) (count_frame w bytes s)))
