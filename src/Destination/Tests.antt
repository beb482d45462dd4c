-- ===== src/Destination/Tests.antt =====
-- A RADIUS pool of three servers, RADIUS_Destination.h.
use wlan_cloud_ucentralgw.Base.{◌≡◌, ◌≤◌, ◌<◌, ◌⊎◌, arith, refl, true, false, List, [], ◌∷◌}
use wlan_cloud_ucentralgw.Destination.{
  orion, Destination, Attempt, connect_servers, connect_secure, connect, attempt, round, since,
  send_data,
}
use wlan_cloud_ucentralgw.Destination.Paced.{IsPaced, Step, rounds, sends, step, run, run-paces}
use wlan_cloud_ucentralgw.Destination.First.{is_first, round-IsFirst}

abbrev idle : Destination
idle = record {
  kind = orion;
  try_again = true;
  connected = false;
  server_index = 0;
  current_delay = 10;
  last_try = 0;
  last_keep_alive = 0;
  kept_alive = [];
  sent = [];
}

-- The first server does not accept, the others do.
abbrev second_accepts : Attempt
second_accepts = record { accepts = false ∷ true ∷ true ∷ []; expired = false }

-- The second attempt waits for twenty seconds.
abbrev refuse : Attempt
refuse = record { accepts = false ∷ []; expired = false }

abbrev one_failure : List Step
one_failure = rounds 60 1000 refuse ∷ sends (λ bytes. false) (λ bytes. bytes) 1 (5 ∷ []) ∷ []

idle-IsPaced : IsPaced idle
idle-IsPaced = record { delay = refl; radsec_idle = λ h. absurd (ground (arith, h)) }

after_failure :
    let t = run one_failure idle in
    (t.try_again ≡ true) × (t.connected ≡ false) × (t.last_try ≡ 1000) × (t.current_delay ≡ 20)
unfolding run step send_data round attempt connect connect_secure connect_servers
after_failure = (refl, refl, refl, refl)

run-paces_example :
    let t = run one_failure idle in
    IsPaced t
    × (((since 1015 t.last_try ≤ t.current_delay) × (round 60 1015 second_accepts t ≡ t))
        ⊎ ((t.current_delay < since 1015 t.last_try)
            × (round 60 1015 second_accepts t ≡ attempt 1015 second_accepts t)
            × ((round 60 1015 second_accepts t).last_try ≡ 1015)
            × IsPaced (round 60 1015 second_accepts t)))
run-paces_example =
    let (on, off, last, delay) = after_failure in
    run-paces one_failure idle 60 1015 second_accepts idle-IsPaced on off
      (λ h. absurd (ground (arith, last, h)))

joins : (round 60 1000 second_accepts idle).connected ≡ true
unfolding round attempt connect connect_secure connect_servers
joins = refl

round-IsFirst_example :
    is_first (false ∷ true ∷ true ∷ []) (round 60 1000 second_accepts idle).server_index ≡ true
round-IsFirst_example = round-IsFirst second_accepts 60 1000 idle refl refl joins
