-- ===== src/Rtty/Stream/Consume.antt =====
-- The loop of rttys/RTTYS_server.cpp over a part of a stream of terminal data.
use mathlib.Core.List.{append_assoc, append-nil}
use wlan_cloud_ucentralgw.Base.{
  ℕ, zero, suc, ◌+◌, ◌^◌, ◌≤◌, ◌<◌, ◌≡◌, refl, sym, ap, ◌∙◌, true, Option, some, List, [], ◌∷◌,
  ◌++◌, ltb, arith, length, length-append, All, inl, inr, Bool-cases,
}
use wlan_cloud_ucentralgw.Rtty.{RttyServer, Net}
use wlan_cloud_ucentralgw.Rtty.Messages.{with_client, Gathered}
use wlan_cloud_ucentralgw.Rtty.Device.{Loop, device_loop}
use wlan_cloud_ucentralgw.Rtty.Stream.{
  TermData, term_message, stream, payloads, IsShort, IsFilled, gathers, gathers-IsFilled,
  device_loop-message, device_loop-partial,
}

-- A front that is long enough for `u` begins with `u`.
append-split :
    (x y u v : List ℕ)
    → x ++ y ≡ u ++ v
    → length u ≤ length x
    → (w : List ℕ) × ((x ≡ u ++ w) × (w ++ y ≡ v))
append-split x y [] v e le = (x, (refl, e))
append-split [] y (c ∷ u) v e le = absurd (omega arith)
append-split (b ∷ x) y (c ∷ u) v e le =
    let heads : b ≡ c = ground (arith, e) in
    let tails : x ++ y ≡ u ++ v = ground (arith, e) in
    let (w, (p, q)) = append-split x y u v tails (omega arith) in (w, (cc (heads, p), q))

length-term_message :
    (sid : ℕ) (bytes : List ℕ) → length (term_message (sid, bytes)) ≡ 4 + length bytes
unfolding term_message
length-term_message sid bytes = omega arith

-- What the loop makes of a part of the stream: some messages are left, of which the buffer holds a
-- part; the data of the others are gathered.
pub record Consumed (s : RttyServer) (out : List ℕ) (ms : List TermData) (rest : List ℕ)
    (o : Option Loop) : Type 0 where
  pub stop : Loop
  pub left : List TermData
  pub gathered : List ℕ
  pub stopped : o ≡ some stop
  pub server : stop.server ≡ s
  pub good : stop.good ≡ true
  pub waits : stop.buffer ++ rest ≡ stream left
  pub filled : IsFilled stop.gathered gathered
  pub data_kept : gathered ++ payloads left ≡ out ++ payloads ms
  pub short : All IsShort left
  pub at_end : rest ≡ [] → stop.buffer ≡ []
  pub shorter : length (stream left) ≤ length (stream ms)

module _ (net : Net) (fd e : ℕ) (s : RttyServer) (client : with_client fd s ≡ some e) where
  stops :
      (fuel : ℕ) (g : Gathered) (b rest out : List ℕ) (ms : List TermData)
      → device_loop net fd fuel s b g
        ≡ some (record { server = s; buffer = b; gathered = g; good = true })
      → b ++ rest ≡ stream ms
      → IsFilled g out
      → All IsShort ms
      → (rest ≡ [] → b ≡ [])
      → Consumed s out ms rest (device_loop net fd fuel s b g)
  stops fuel g b rest out ms h q v short end = record {
    stop = record { server = s; buffer = b; gathered = g; good = true };
    left = ms;
    gathered = out;
    stopped = h;
    server = refl;
    good = refl;
    waits = q;
    filled = v;
    data_kept = refl;
    short = short;
    at_end = end;
    shorter = omega arith;
  }

  pub consume :
      (ms : List TermData) (fuel : ℕ) (g : Gathered) (b rest out : List ℕ)
      → b ++ rest ≡ stream ms
      → length b < fuel
      → IsFilled g out
      → All IsShort ms
      → length out + length (stream ms) < 2 ^ 64
      → Consumed s out ms rest (device_loop net fd fuel s b g)
  consume ms zero g b rest out q enough v short room = absurd (omega arith)
  consume [] (suc fuel) g [] rest out q enough v short room =
      stops (suc fuel) g [] rest out [] (unfold device_loop in refl) q v short (λ x. refl)
  consume [] (suc fuel) g (x ∷ b) rest out q enough v short room =
      absurd (unfold stream in ground (arith, q))
  consume ((sid, bytes) ∷ ms) (suc fuel) g b rest out q enough v (h, short) room =
      let whole : b ++ rest ≡ term_message (sid, bytes) ++ stream ms = unfold stream in q in
      let size = length-term_message sid bytes in
      let total : length (stream ((sid, bytes) ∷ ms))
          ≡ length (term_message (sid, bytes)) + length (stream ms) =
        unfold stream in length-append (term_message (sid, bytes)) (stream ms) in
      elim (Bool-cases (ltb (length b) (length (term_message (sid, bytes))))) [
        | inl few ↦
            stops (suc fuel) g b rest out ((sid, bytes) ∷ ms)
              (device_loop-partial net fd fuel s g b rest (sid, bytes) (stream ms) h whole
                (ground (arith, few)))
              q v (h, short)
              (λ x.
                let long : length b ≡ length (term_message (sid, bytes)) + length (stream ms) =
                  sym (ap length (ap (◌++◌ b) x ∙ append-nil b))
                  ∙ ap length whole
                  ∙ length-append (term_message (sid, bytes)) (stream ms) in
                absurd (ground (arith, few, long)))
        | inr more ↦
            let (w, (p, rest_q)) =
              append-split b rest (term_message (sid, bytes)) (stream ms) whole
                (ground (arith, more)) in
            let fits : g.pos + length bytes < 2 ^ 64 = omega (arith, v.filled, room, total, size) in
            let goes = device_loop-message net fd e s client fuel sid bytes w g h fits in
            let size_b : length b ≡ length (term_message (sid, bytes)) + length w =
              ap length p ∙ length-append (term_message (sid, bytes)) w in
            let r =
              consume ms fuel (gathers g bytes) w rest (out ++ bytes) rest_q
                (omega (arith, size_b, size)) (gathers-IsFilled g out bytes v) short
                (omega (arith, length-append out bytes, room, total, size)) in
            record {
              stop = r.stop;
              left = r.left;
              gathered = r.gathered;
              stopped = ap (λ x. device_loop net fd (suc fuel) s x g) p ∙ goes ∙ r.stopped;
              server = r.server;
              good = r.good;
              waits = r.waits;
              filled = r.filled;
              data_kept = r.data_kept ∙ (unfold payloads in append_assoc out bytes (payloads ms));
              short = r.short;
              at_end = r.at_end;
              shorter = omega (arith, r.shorter, total);
            }
      ]
