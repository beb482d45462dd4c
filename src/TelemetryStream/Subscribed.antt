-- ===== src/TelemetryStream/Subscribed.antt =====
-- The streams of TelemetryStream.cpp as a relation between serial numbers and UUIDs.
use wlan_cloud_ucentralgw.Base.{
  ℕ, ◌≡◌, refl, sym, ap, ◌∙◌, Bool, true, false, not, ◌&&◌, ◌||◌, Option, none, some, List, [], ◌∷◌,
  ◌++◌, ◌==◌, arith, if_elim, inl, inr, Bool-cases,
}
use wlan_cloud_ucentralgw.Base.Dict.{find, Rising, assign-Rising}
use wlan_cloud_ucentralgw.Base.Table.{Text, same, same_sound, get_entry, put_entry}
use wlan_cloud_ucentralgw.TelemetryStream.{
  TextSet, TelemetryStream, is_some, is_listed, is_valid_end_point, list_uuid, create_endpoint,
  new_client, receivers, send_all, notify_data, unregister,
}
use wlan_cloud_ucentralgw.TelemetryStream.Listed.{
  get_entry-is_some-put, get_entry-is_some-drop, is_listed-list_uuid, is_listed-erase_uuid,
  erase_uuid-Rising,
}

pub data Call : Type 0 where
  creates : ℕ → Text → Call
  joins : ℕ → Text → Option ℕ → Call
  tells : ℕ → Text → Call
  leaves : Text → Call

unfoldable pub step : Call → TelemetryStream → TelemetryStream
step (creates sn uuid) s = create_endpoint sn uuid s
step (joins sn uuid client) s = new_client sn uuid client s
step (tells sn payload) s = notify_data sn payload s
step (leaves uuid) s = unregister uuid s

unfoldable pub run : List Call → TelemetryStream → TelemetryStream
run [] s = s
run (call ∷ calls) s = run calls (step call s)

-- Which UUIDs may receive the telemetry of which serial numbers.
abbrev pub Streams : Type 0
Streams = ℕ → Text → Bool

abbrev pub with_stream : ℕ → Text → Streams → Streams
with_stream sn uuid f = λ n u. (sn == n && same uuid u) || f n u

abbrev pub without_uuid : Text → Streams → Streams
without_uuid uuid f = λ n u. f n u && not (same uuid u)

unfoldable pub streams_step : Call → Streams → Streams
streams_step (creates sn uuid) f = with_stream sn uuid f
streams_step (joins sn uuid none) f = f
streams_step (joins sn uuid (some client)) f = with_stream sn uuid f
streams_step (tells sn payload) f = f
streams_step (leaves uuid) f = without_uuid uuid f

unfoldable pub streams_run : List Call → Streams → Streams
streams_run [] f = f
streams_run (call ∷ calls) f = streams_run calls (streams_step call f)

-- The sets stand in the order of their keys, a listed UUID is that of a client, and `f` says what is
-- listed.
pub record Describes (f : Streams) (s : TelemetryStream) : Type 0 where
  pub rising : Rising 0 s.serial_numbers
  pub known :
      (n : ℕ) (u : Text)
      → is_listed n u s.serial_numbers ≡ true
      → is_some (get_entry u s.clients) ≡ true
  pub listed : (n : ℕ) (u : Text) → is_listed n u s.serial_numbers ≡ f n u

with_stream-Describes :
    (sn : ℕ) (uuid : Text) (client : Option ℕ) (f : Streams) (s : TelemetryStream)
    → Describes f s
    → Describes (with_stream sn uuid f) (record s {
      serial_numbers = list_uuid sn uuid s.serial_numbers;
      clients = put_entry uuid client s.clients;
    })
unfolding list_uuid
with_stream-Describes sn uuid client f s v = record {
  rising = assign-Rising 0 sn _ s.serial_numbers (omega arith) v.rising;
  known = λ n u h.
      let now = sym (is_listed-list_uuid sn n uuid u s.serial_numbers) ∙ h in
      let put = get_entry-is_some-put uuid u client s.clients in
      elim (Bool-cases (same uuid u)) [
        | inl q ↦ put ∙ ap (λ b. b || is_some (get_entry u s.clients)) q
        | inr q ↦ let had = v.known n u (ground (arith, now, q)) in put ∙ ground (arith, q, had)
      ];
  listed = λ n u.
      is_listed-list_uuid sn n uuid u s.serial_numbers
      ∙ ap (λ b. (sn == n && same uuid u) || b) (v.listed n u);
}

unregister-Describes :
    (uuid : Text) (f : Streams) (s : TelemetryStream)
    → Describes f s
    → Describes (without_uuid uuid f) (unregister uuid s)
unfolding unregister
unregister-Describes uuid f s v =
    if_elim (Describes (without_uuid uuid f)) (is_some (get_entry uuid s.clients))
      (λ q. record {
        rising = erase_uuid-Rising 0 uuid s.serial_numbers v.rising;
        known = λ n u h.
            let now = sym (is_listed-erase_uuid 0 n uuid u s.serial_numbers v.rising) ∙ h in
            let had = v.known n u (ground (arith, now)) in
            get_entry-is_some-drop uuid u s.clients ∙ ground (arith, now, had);
        listed = λ n u.
            is_listed-erase_uuid 0 n uuid u s.serial_numbers v.rising
            ∙ ap (λ b. b && not (same uuid u)) (v.listed n u);
      })
      (λ q. record {
        rising = v.rising;
        known = v.known;
        listed = λ n u. v.listed n u ∙ unknown q n u;
      })
  where
    -- Nothing is listed under the UUID of no client.
    unknown :
        is_some (get_entry uuid s.clients) ≡ false
        → (n : ℕ) (u : Text) → f n u ≡ (f n u && not (same uuid u))
    unknown q n u = elim (Bool-cases (same uuid u)) [
      | inr h ↦ rw h (ground arith)
      | inl h ↦ elim (Bool-cases (is_listed n u s.serial_numbers)) [
        | inl l ↦
            let client =
              ap (λ x. is_some (get_entry x s.clients)) (same_sound uuid u h) ∙ v.known n u l in
            absurd (ground (arith, q, client))
        | inr l ↦ let none_there = sym (v.listed n u) ∙ l in rw (h, none_there) refl
      ]
    ]

notify_data-Describes :
    (sn : ℕ) (payload : Text) (f : Streams) (s : TelemetryStream)
    → Describes f s
    → Describes f (notify_data sn payload s)
unfolding notify_data
notify_data-Describes sn payload f s v = told (find sn s.serial_numbers)
  where
    told :
        (o : Option TextSet)
        → Describes f (elim o [
          | none ↦ s
          | some set ↦ record s { sent = s.sent ++ send_all payload (receivers set s.clients) }
        ])
    told none = v
    told (some set) = record { rising = v.rising; known = v.known; listed = v.listed }

step-Describes :
    (call : Call) (f : Streams) (s : TelemetryStream)
    → Describes f s
    → Describes (streams_step call f) (step call s)
unfolding step streams_step create_endpoint new_client
step-Describes (creates sn uuid) f s v = with_stream-Describes sn uuid none f s v
step-Describes (joins sn uuid none) f s v = v
step-Describes (joins sn uuid (some client)) f s v =
    with_stream-Describes sn uuid (some client) f s v
step-Describes (tells sn payload) f s v = notify_data-Describes sn payload f s v
step-Describes (leaves uuid) f s v = unregister-Describes uuid f s v

run-Describes :
    (calls : List Call) (f : Streams) (s : TelemetryStream)
    → Describes f s
    → Describes (streams_run calls f) (run calls s)
unfolding run streams_run
run-Describes [] f s v = v
run-Describes (call ∷ calls) f s v =
    run-Describes calls (streams_step call f) (step call s) (step-Describes call f s v)

abbrev pub no_streams : TelemetryStream
no_streams = record { serial_numbers = []; clients = []; sent = [] }

-- After any calls in any order, a UUID is a valid end point of a serial number exactly if the calls
-- say so: it has been created or has joined for that serial number, and the UUID has not left since.
pub run-is_valid_end_point :
    (calls : List Call) (sn : ℕ) (uuid : Text)
    → is_valid_end_point sn uuid (run calls no_streams) ≡ streams_run calls (λ n u. false) sn uuid
unfolding is_valid_end_point
run-is_valid_end_point calls sn uuid =
    let start : Describes (λ n u. false) no_streams = record {
      rising = tt;
      known = λ n u h. absurd (unfold is_listed find in ground (arith, h));
      listed = λ n u. unfold is_listed find in refl;
    } in
    let v = run-Describes calls (λ n u. false) no_streams start in
    elim (Bool-cases (is_listed sn uuid (run calls no_streams).serial_numbers)) [
      | inl q ↦
          ap (λ b. b && is_listed sn uuid (run calls no_streams).serial_numbers) (v.known sn uuid q)
          ∙ v.listed sn uuid
      | inr q ↦ ground (arith, q, v.listed sn uuid)
    ]
