-- ===== src/ApConnection/Assembly.antt =====
-- A message in several frames, AP_WS_Connection.cpp.
use mathlib.Core.List.{append_assoc}
use wlan_cloud_ucentralgw.Base.{
  ℕ, suc, ◌+◌, ◌/◌, ◌%◌, ◌^◌, ◌≡◌, refl, sym, ap, ◌∙◌, Bool, true, false, ◌&&◌, ◌||◌, List, [], ◌∷◌,
  ◌++◌, ltb, ◌==◌, arith, length, length-append, All,
}
use wlan_cloud_ucentralgw.ApConnection.Link.{ApConnection, World}
use wlan_cloud_ucentralgw.ApConnection.Frames.{
  Document, frame, unless_errors, count_frame, finish_frame, process_operation,
  process_incoming_frame,
}

-- A frame, and the world while it is worked on.
pub record Piece : Type 0 where
  pub world : World
  pub flags : ℕ
  pub bytes : List ℕ

-- The frame is a text or continues one.
abbrev pub is_text : ℕ → Bool
is_text flags = flags % 16 == 0 || flags % 16 == 1

abbrev pub is_final : ℕ → Bool
is_final flags = flags / 128 % 2 == 1

-- A piece of a text that is not its last; it is not the one that means that the device has gone.
pub record IsFragment (p : Piece) : Type 0 where
  pub text : is_text p.flags ≡ true
  pub not_final : is_final p.flags ≡ false
  pub not_gone : (p.flags == 0 && length p.bytes == 0) ≡ false

unfoldable pub assemble : (List ℕ → Document) → List Piece → ApConnection → ApConnection
assemble parse [] s = s
assemble parse (p ∷ pieces) s =
    assemble parse pieces (process_incoming_frame p.world parse (frame p.flags p.bytes) s)

unfoldable pub bytes_of : List Piece → List ℕ
bytes_of [] = []
bytes_of (p ∷ pieces) = p.bytes ++ bytes_of pieces

-- An operation of a text is none of the others.
process_operation-text :
    (w : World) (parse : List ℕ → Document) (op : ℕ) (fin : Bool) (s : ApConnection)
    → (op == 0 || op == 1) ≡ true
    → process_operation w parse op fin s ≡ finish_frame w parse fin s
unfolding process_operation
process_operation-text w parse op fin s q =
    let nine : (op == 9) ≡ false = ground (arith, q) in
    let ten : (op == 10) ≡ false = ground (arith, q) in
    let two : (op == 2) ≡ false = ground (arith, q) in
    let eight : (op == 8) ≡ false = ground (arith, q) in rw (nine, ten, two, eight, q) refl

process_incoming_frame-IsFragment :
    (parse : List ℕ → Document) (p : Piece) (s : ApConnection)
    → IsFragment p
    → ltb s.errors 10 ≡ true
    → process_incoming_frame p.world parse (frame p.flags p.bytes) s ≡ count_frame p.world p.bytes s
unfolding process_incoming_frame finish_frame unless_errors count_frame
process_incoming_frame-IsFragment parse p s f few =
    let operation =
      process_operation-text p.world parse (p.flags % 16) false (count_frame p.world p.bytes s)
        f.text in
    let calm : finish_frame p.world parse false (count_frame p.world p.bytes s)
        ≡ count_frame p.world p.bytes s =
      rw few refl in
    rw (f.not_gone, f.not_final) (operation ∙ calm)

-- Two pieces count as one, and as one more message.
count_frame-append :
    (v w : World) (a b : List ℕ) (n : ℕ) (s : ApConnection)
    → let t = count_frame v a s in
      count_frame w b (record t { message_count = (t.message_count + n) % 2 ^ 64 })
      ≡ count_frame w (a ++ b) (record s { message_count = (s.message_count + suc n) % 2 ^ 64 })
unfolding count_frame
count_frame-append v w a b n s =
    let received : ((s.rx + length a) % 2 ^ 64 + length b) % 2 ^ 64
        ≡ (s.rx + length (a ++ b)) % 2 ^ 64 =
      omega (arith, length-append a b) in
    let messages : ((s.message_count + 1) % 2 ^ 64 + n) % 2 ^ 64
        ≡ (s.message_count + suc n) % 2 ^ 64 =
      omega arith in
    rw (received, messages, append_assoc s.incoming_frame a b) refl

assembled :
    (pieces : List Piece) (w : World) (parse : List ℕ → Document) (b : List ℕ) (s : ApConnection)
    → All IsFragment pieces
    → ltb s.errors 10 ≡ true
    → count_frame w b (assemble parse pieces s)
      ≡ count_frame w
          (bytes_of pieces ++ b)
          (record s { message_count = (s.message_count + length pieces) % 2 ^ 64 })
unfolding assemble bytes_of count_frame
assembled [] w parse b s h few =
    let messages : ((s.message_count + 0) % 2 ^ 64 + 1) % 2 ^ 64 ≡ (s.message_count + 1) % 2 ^ 64 =
      omega arith in
    rw messages refl
assembled (p ∷ pieces) w parse b s h few =
    let t = count_frame p.world p.bytes s in
    ap (λ x. count_frame w b (assemble parse pieces x))
      (process_incoming_frame-IsFragment parse p s h.0 few)
    ∙ assembled pieces w parse b t h.1 few
    ∙ count_frame-append p.world w p.bytes (bytes_of pieces ++ b) (length pieces) s
    ∙ ap
        (λ x.
          count_frame w x
            (record s { message_count = (s.message_count + suc (length pieces)) % 2 ^ 64 }))
        (sym (append_assoc p.bytes (bytes_of pieces) b))

-- A text that arrives in any number of frames, of any sizes, has the effect that it has in one frame:
-- after its last frame the connection is the one that the whole text leaves, but for the number of
-- messages that were counted before. The earlier frames may come at other times and in other states
-- of the gateway; fewer than ten errors have been counted.
pub assemble-whole :
    (pieces : List Piece) (w : World) (parse : List ℕ → Document) (flags : ℕ) (b : List ℕ)
    (s : ApConnection)
    → All IsFragment pieces
    → is_final flags ≡ true
    → ltb s.errors 10 ≡ true
    → process_incoming_frame w parse (frame flags b) (assemble parse pieces s)
      ≡ process_incoming_frame w parse
          (frame flags (bytes_of pieces ++ b))
          (record s { message_count = (s.message_count + length pieces) % 2 ^ 64 })
unfolding process_incoming_frame
assemble-whole pieces w parse flags b s h final few =
    let here : (flags == 0) ≡ false = ground (arith, final) in
    rw here (
      ap (process_operation w parse (flags % 16) (is_final flags))
        (assembled pieces w parse b s h few))
