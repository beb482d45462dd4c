-- ===== src/Sessions/Zombies.antt =====
-- The garbage collector of AP_WS_Server.cpp: `run` queues the sessions of dead and of idle
-- connections, `CleanupSessions` ends the sessions of the queue.
-- `right_now c` is what `Utils::Now()` answers when the connection `c` is looked at, and `locked h`
-- whether one of the attempts at the lock of the map `h` succeeds: a map that stays locked is
-- skipped.
pub mod Sweeps
pub mod Drain
pub mod Collect
use wlan_cloud_ucentralgw.Base.{
  ℕ, zero, suc, ◌+◌, ◌-◌, ◌/◌, ◌%◌, ◌^◌, Bool, true, false, ◌&&◌, Option, none, some, List, [], ◌∷◌,
  ◌++◌, ltb, if◌then◌else◌, arith,
}
use wlan_cloud_ucentralgw.Base.Dict.{Dict}
use wlan_cloud_ucentralgw.Sessions.{Server, Heap, Pointer, Shards, Connection, update, end_session}

-- The device is dead, or was last heard of too long ago.
unfoldable pub is_zombie : ℕ → ℕ → Connection → Bool
is_zombie time_out now c =
    if c.dead
    then true
    else if ltb c.last_contact now && ltb time_out (now - c.last_contact)
    then true
    else false

-- What a pass over maps leaves, queues and adds up.
pub record Pass : Type 0 where
  pub kept : Dict Pointer
  pub queued : List (ℕ × ℕ)
  pub total : ℕ

pub record Passes : Type 0 where
  pub maps : Shards
  pub queue : List (ℕ × ℕ)
  pub total : ℕ

-- The two passes differ in what a live connection adds to the total.
module _ (heap : Heap) (time_out : ℕ) (right_now : ℕ → ℕ) (weight : ℕ → ℕ) where
  -- A null pointer is erased; a zombie is queued and kept.
  unfoldable pub sweep : Dict Pointer → Pass
  unfolding is_zombie
  sweep [] = record { kept = []; queued = []; total = 0 }
  sweep ((k, none) ∷ m) = sweep m
  sweep ((k, some c) ∷ m) =
      let r = sweep m in
      if is_zombie time_out (right_now c) (heap c)
      then record {
        kept = (k, some c) ∷ r.kept;
        queued = ((heap c).session_id, (heap c).serial_number) ∷ r.queued;
        total = r.total;
      }
      else record {
        kept = (k, some c) ∷ r.kept;
        queued = r.queued;
        total = (weight c + r.total) % 2 ^ 64;
      }

  unfoldable pub sweep_map : (ℕ → Bool) → ℕ → Passes → Passes
  unfolding update
  sweep_map locked h p =
      let r = sweep (p.maps h) in
      if locked h
      then record {
        maps = update p.maps h r.kept;
        queue = p.queue ++ r.queued;
        total = (p.total + r.total) % 2 ^ 64;
      }
      else p

  -- `for (hashIndex = h; hashIndex < HashMax(); hashIndex++)`, on the rounds left.
  unfoldable pub sweep_maps : (ℕ → Bool) → ℕ → ℕ → Passes → Passes
  sweep_maps locked zero h p = p
  sweep_maps locked (suc n) h p = sweep_maps locked n (suc h) (sweep_map locked h p)

-- What a connected device adds to `total_connected_time`, in 64 bits.
connected_time : Heap → (ℕ → ℕ) → ℕ → ℕ
connected_time heap right_now c =
    if (heap c).connected then (right_now c + 2 ^ 64 - (heap c).started) % 2 ^ 64 else 0

abbrev pub hash_max : ℕ
hash_max = 256

unfoldable pub device_pass : Heap → (ℕ → ℕ) → (ℕ → Bool) → Server → Passes
unfolding connected_time
device_pass heap right_now locked s =
    sweep_maps heap s.session_time_out right_now (connected_time heap right_now) locked hash_max 0
      (record { maps = s.serial_numbers; queue = s.cleanup_sessions; total = 0 })

unfoldable pub session_pass : Heap → (ℕ → ℕ) → (ℕ → Bool) → List (ℕ × ℕ) → Server → Passes
session_pass heap right_now locked queue s =
    sweep_maps heap s.session_time_out right_now (λ c. 1) locked hash_max 0
      (record { maps = s.sessions; queue = queue; total = 0 })

-- The guarded part of one round of `run`, whose times have 64 bits, with the clocks and locks of its two passes.
unfoldable pub zombie_run : Heap → ℕ → (ℕ → ℕ) → (ℕ → Bool) → (ℕ → ℕ) → (ℕ → Bool) → Server → Server
zombie_run heap now clock locked clock' locked' s =
    let p = device_pass heap clock locked s in
    let q = session_pass heap clock' locked' p.queue s in
    if ltb 60 ((now + 2 ^ 64 - s.last_zombie_run) % 2 ^ 64)
    then record s {
      serial_numbers = p.maps;
      sessions = q.maps;
      cleanup_sessions = q.queue;
      left_over_sessions = q.total;
      number_of_connecting_devices = 0;
      average_device_connection_time =
          if ltb 0 s.number_of_connected_devices
          then p.total / s.number_of_connected_devices
          else 0;
      last_zombie_run = now;
    }
    else s

-- The inner loop of `CleanupSessions` on the queue as it stands.
unfoldable pub drain_queue : Heap → List (ℕ × ℕ) → Server → Server
drain_queue heap [] s = record s { cleanup_sessions = [] }
drain_queue heap ((id, sn) ∷ q) s =
    drain_queue heap q (end_session heap id sn (record s { cleanup_sessions = q })).0

unfoldable pub drain : Heap → Server → Server
unfolding drain_queue
drain heap s = drain_queue heap s.cleanup_sessions s
