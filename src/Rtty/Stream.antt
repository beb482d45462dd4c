-- ===== src/Rtty/Stream.antt =====
-- Terminal data from a device in messages, as rttys/RTTYS_server.cpp reads them out of its buffer.
pub mod Consume
pub mod Readings
use mathlib.Core.Path.{subst}
use wlan_cloud_ucentralgw.Base.{
  ℕ, zero, suc, ◌+◌, ◌-◌, ◌*◌, ◌/◌, ◌%◌, ◌^◌, ◌≤◌, ◌<◌, ◌≡◌, refl, sym, ap, ◌∙◌, Bool, true, false,
  Option, none, some, List, [], ◌∷◌, ◌++◌, ◌==◌, ltb, if◌then◌else◌, arith, length, length-append,
  take, drop, inl, inr, Bool-cases,
}
use wlan_cloud_ucentralgw.Radius.Wire.{Holds, append-Holds}
use wlan_cloud_ucentralgw.Radius.Packet.{write}
use wlan_cloud_ucentralgw.Radius.Packet.Append.{write-Holds, Holds-write}
use wlan_cloud_ucentralgw.Rtty.{RttyServer, Net}
use wlan_cloud_ucentralgw.Rtty.Messages.{
  Handled, handled, with_client, Gathered, do_term_data, dispatch,
}
use wlan_cloud_ucentralgw.Rtty.Device.{
  Loop, device_loop, round, device_loop-waits, device_loop-goes,
}

-- A message of terminal data: the session id and the data.
abbrev pub TermData : Type 0
TermData = ℕ × List ℕ

unfoldable pub term_message : TermData → List ℕ
term_message (sid, bytes) =
    3 ∷ (suc (length bytes) / 2 ^ 8) ∷ (suc (length bytes) % 2 ^ 8) ∷ sid ∷ bytes

unfoldable pub stream : List TermData → List ℕ
stream [] = []
stream (m ∷ ms) = term_message m ++ stream ms

unfoldable pub payloads : List TermData → List ℕ
payloads [] = []
payloads ((sid, bytes) ∷ ms) = bytes ++ payloads ms

-- The length of the message fits its header.
abbrev pub IsShort : TermData → Type 0
IsShort (sid, bytes) = suc (length bytes) < 2 ^ 16

-- What has been gathered so far.
pub record IsFilled (g : Gathered) (out : List ℕ) : Type 0 where
  pub holds : Holds g.bytes 0 out
  pub filled : g.pos ≡ length out

take-front {ℓ} : {A : Type ℓ} (xs ys : List A) → take (length xs) (xs ++ ys) ≡ xs
take-front [] ys = refl
take-front (x ∷ xs) ys = ap (◌∷◌ x) (take-front xs ys)

drop-front {ℓ} : {A : Type ℓ} (xs ys : List A) → drop (length xs) (xs ++ ys) ≡ ys
drop-front [] ys = refl
drop-front (x ∷ xs) ys = drop-front xs ys

-- What is gathered when the data are added.
abbrev pub gathers : Gathered → List ℕ → Gathered
gathers g bytes = record { bytes = write g.bytes g.pos bytes; pos = g.pos + length bytes }

pub gathers-IsFilled :
    (g : Gathered) (out bytes : List ℕ) → IsFilled g out → IsFilled (gathers g bytes) (out ++ bytes)
gathers-IsFilled g out bytes v =
    let kept = Holds-write g.bytes 0 g.pos out bytes v.holds (omega (arith, v.filled)) in
    let added = write-Holds g.bytes g.pos bytes in
    let b = write g.bytes g.pos bytes in
    let at : g.pos ≡ 0 + length out = omega (arith, v.filled) in
    record {
      holds = append-Holds b 0 out bytes kept (subst (λ k. Holds b k bytes) at added);
      filled = omega (arith, v.filled, length-append out bytes);
    }

module _ (net : Net) (fd e : ℕ) (s : RttyServer) (client : with_client fd s ≡ some e) where
  do_term_data-message :
      (sid : ℕ) (bytes rest : List ℕ) (g : Gathered)
      → IsShort (sid, bytes)
      → g.pos + length bytes < 2 ^ 64
      → do_term_data fd (suc (length bytes)) (sid ∷ (bytes ++ rest)) s g
        ≡ (handled s rest true, gathers g bytes)
  unfolding do_term_data
  do_term_data-message sid bytes rest g short room =
      let n : (suc (length bytes) + 2 ^ 64 - 1) % 2 ^ 64 ≡ length bytes = omega arith in
      let p : (g.pos + length bytes) % 2 ^ 64 ≡ g.pos + length bytes = omega arith in
      let k : (if ltb (length bytes) (length (bytes ++ rest))
            then length bytes
            else length (bytes ++ rest))
          ≡ length bytes =
        ground (arith, length-append bytes rest) in
      rw (client, do_term_data) (rw (n, k, p, take-front bytes rest, drop-front bytes rest) refl)

  -- A complete message of terminal data is taken out of the buffer and gathered.
  pub device_loop-message :
      (fuel sid : ℕ) (bytes rest : List ℕ) (g : Gathered)
      → IsShort (sid, bytes)
      → g.pos + length bytes < 2 ^ 64
      → device_loop net fd (suc fuel) s (term_message (sid, bytes) ++ rest) g
        ≡ device_loop net fd fuel s rest (gathers g bytes)
  device_loop-message fuel sid bytes rest g short room =
      let high = suc (length bytes) / 2 ^ 8 in
      let low = suc (length bytes) % 2 ^ 8 in
      let n : (high * 2 ^ 8 + low) % 2 ^ 16 ≡ suc (length bytes) = omega arith in
      let done : dispatch net fd 3 ((high * 2 ^ 8 + low) % 2 ^ 16) (sid ∷ (bytes ++ rest)) s g
          ≡ (handled s rest true, gathers g bytes) =
        rw n (unfold dispatch in do_term_data-message sid bytes rest g short room) in
      let there : ltb (length (sid ∷ (bytes ++ rest))) ((high * 2 ^ 8 + low) % 2 ^ 16) ≡ false =
        rw n (ground (arith, length-append bytes rest)) in
      unfold term_message in
      device_loop-goes net fd fuel s 3 high low (sid ∷ (bytes ++ rest)) g there
        (ap (λ r. r.0.good) done)
      ∙ ap (λ (r : Handled × Gathered). device_loop net fd fuel r.0.server r.0.buffer r.1) done

-- A message that is not complete waits.
pub device_loop-partial :
    (net : Net) (fd fuel : ℕ) (s : RttyServer) (g : Gathered) (b rest : List ℕ) (m : TermData)
    (tail : List ℕ)
    → IsShort m
    → b ++ rest ≡ term_message m ++ tail
    → length b < length (term_message m)
    → device_loop net fd (suc fuel) s b g
      ≡ some (record { server = s; buffer = b; gathered = g; good = true })
unfolding device_loop term_message
device_loop-partial net fd fuel s g [] rest m tail short e few = refl
device_loop-partial net fd fuel s g (x ∷ []) rest m tail short e few = refl
device_loop-partial net fd fuel s g (x ∷ y ∷ []) rest m tail short e few = refl
device_loop-partial net fd fuel s g (x ∷ y ∷ z ∷ b) rest (sid, bytes) tail short e few =
    let high : y ≡ suc (length bytes) / 2 ^ 8 = ground (arith, e) in
    let low : z ≡ suc (length bytes) % 2 ^ 8 = ground (arith, e) in
    let n : (y * 2 ^ 8 + z) % 2 ^ 16 ≡ suc (length bytes) = omega (arith, high, low) in
    device_loop-waits net fd fuel s x y z b g (rw n (ground (arith, few)))
