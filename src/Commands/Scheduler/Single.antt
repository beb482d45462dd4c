-- ===== src/Commands/Scheduler/Single.antt =====
-- The scheduler of CommandManager.cpp gives a device one request at a time.
use wlan_cloud_ucentralgw.Base.{
  ℕ, suc, ◌+◌, ◌-◌, ◌%◌, ◌^◌, ◌≤◌, ◌<◌, ◌≡◌, refl, sym, ◌∙◌, ◌≢◌, ◌⊎◌, false, none, some, List, [],
  ◌∷◌, ltb, arith, inl, inr, Bool-cases, Option-cases, length,
}
use wlan_cloud_ucentralgw.Base.Dict.{Dict, find}
use wlan_cloud_ucentralgw.Commands.{
  CommandInfo, Effect, Manager, record_effect, next_rpc_id, is_command_running,
  command_running_for_device, first_for_device,
}
use wlan_cloud_ucentralgw.Commands.Post.{
  Post, Posted, command_info, post_command, post_command_lem, post_command-IsValid, IsValid,
  next_rpc_id-fresh,
}
use wlan_cloud_ucentralgw.Commands.Scheduler.{
  Details, World, post_next, execute, schedule, schedule_batch,
}

-- The device of a request has no other request.
abbrev pub OnePerDevice : Dict CommandInfo → Type 0
OnePerDevice d =
    (i j : ℕ) (b c : CommandInfo)
    → find i d ≡ some b
    → find j d ≡ some c
    → b.serial_number ≡ c.serial_number
    → i ≡ j

first_for_device-none :
    (serial j : ℕ) (c : CommandInfo) (d : Dict CommandInfo)
    → first_for_device serial d ≡ none
    → find j d ≡ some c
    → c.serial_number ≢ serial
unfolding first_for_device find
first_for_device-none serial j c [] n e = cc
first_for_device-none serial j c ((i, b) ∷ d) n e =
    ground (arith, first_for_device-none serial j c d)

-- The scheduler's invariant, while ids last for `more` commands.
pub record IsFree (more : ℕ) (m : Manager) : Type 0 where
  pub valid : IsValid m
  pub started : 3 ≤ m.last_id
  pub room : m.last_id + more < 2 ^ 64
  pub single : OnePerDevice m.outstanding

abbrev next_post : World → Details → ℕ → ℕ → Post
next_post w cmd serial id = record {
  rpc_id = id;
  command = cmd.command;
  serial_number = serial;
  uuid = cmd.uuid;
  oneway_rpc = false;
  rpc = false;
  deferred = false;
  submitted = w.submit_time;
  promise = 0;
}

module _ (w : World) (cmd : Details) (serial more : ℕ) (m : Manager) (v : IsFree (suc more) m) where
  next_id : ℕ
  next_id = (next_rpc_id m).1

  numbered : Manager
  numbered = (next_rpc_id m).0

  numbered-outstanding : numbered.outstanding ≡ m.outstanding
  unfolding numbered next_rpc_id
  numbered-outstanding = refl

  next-fresh :
      (1 < next_id)
      × (find next_id numbered.outstanding ≡ none)
      × (numbered.last_id ≡ next_id)
      × IsValid numbered
  unfolding next_id numbered
  next-fresh = next_rpc_id-fresh m v.valid v.started (omega (arith, v.room))

  next-last : numbered.last_id ≡ m.last_id + 1
  unfolding numbered next_rpc_id
  next-last = omega (arith, v.room)

  result : Posted
  result = post_command (w.sends serial next_id) (next_post w cmd serial next_id) numbered

  -- A request that waits after the command was posted waited before, or is the command's.
  result-find :
      (j : ℕ) (c : CommandInfo)
      → find j result.manager.outstanding ≡ some c
      → (find j m.outstanding ≡ some c) ⊎ ((j ≡ next_id) × (c.serial_number ≡ serial))
  unfolding result command_info
  result-find j c e =
      let (_, look, _) =
        post_command_lem (w.sends serial next_id) (next_post w cmd serial next_id) numbered
          next-fresh.1 in
      ground (arith, look j, numbered-outstanding)

  result-last : result.manager.last_id ≡ m.last_id + 1
  unfolding result post_command
  result-last = ground (arith, next-last)

  result-IsValid : IsValid result.manager
  unfolding result
  result-IsValid =
      post_command-IsValid (w.sends serial next_id) (next_post w cmd serial next_id) numbered
        next-fresh.3 (omega (arith, next-fresh.2))

  -- If the device was free, each device still has one request at most.
  result-single :
      command_running_for_device serial m ≡ none → OnePerDevice result.manager.outstanding
  unfolding command_running_for_device
  result-single free i j b c ei ej same =
      let idle = λ (k : ℕ) (d : CommandInfo). first_for_device-none serial k d m.outstanding free in
      elim (result-find i b ei) [
        | inl oi ↦ elim (result-find j c ej) [
          | inl oj ↦ v.single i j b c oi oj same
          | inr (nj, sj) ↦ absurd (idle i b oi (same ∙ sj))
        ]
        | inr (ni, si) ↦ elim (result-find j c ej) [
          | inl oj ↦ absurd (idle j c oj (sym same ∙ si))
          | inr (nj, sj) ↦ ni ∙ sym nj
        ]
      ]

IsFree-effect :
    (more : ℕ) (e : Effect) (m : Manager) → IsFree more m → IsFree more (record_effect e m)
unfolding record_effect
IsFree-effect more e m v = record {
  valid = record { rising = v.valid.rising; good = v.valid.good };
  started = v.started;
  room = v.room;
  single = v.single;
}

IsFree-fewer : (more : ℕ) (m : Manager) → IsFree (suc more) m → IsFree more m
IsFree-fewer more m v = record {
  valid = v.valid;
  started = v.started;
  room = omega (arith, v.room);
  single = v.single;
}

post_next-IsFree :
    (w : World) (cmd : Details) (serial more : ℕ) (m : Manager)
    → IsFree (suc more) m
    → command_running_for_device serial m ≡ none
    → IsFree more (post_next w cmd serial m)
unfolding post_next result next_id numbered
post_next-IsFree w cmd serial more m v free = IsFree-effect more _ _ (record {
  valid = result-IsValid w cmd serial more m v;
  started = omega (arith, v.started, result-last w cmd serial more m v);
  room = omega (arith, v.room, result-last w cmd serial more m v);
  single = result-single w cmd serial more m v free;
})

execute-IsFree :
    (w : World) (cmd : Details) (serial more : ℕ) (m : Manager)
    → IsFree (suc more) m
    → IsFree more (execute w cmd serial m)
unfolding execute post_next
execute-IsFree w cmd serial more m v =
    let u = IsFree-fewer more m v in
    elim (Bool-cases (w.connected serial)) [
      | inr off ↦ rw off (IsFree-effect more _ m u)
      | inl on ↦ elim (Option-cases (command_running_for_device serial m)) [
        | inr (busy, e) ↦ rw (on, e, execute) u
        | inl e ↦ elim (Bool-cases cmd.parses) [
          | inl p ↦ rw (on, e, p, execute) (post_next-IsFree w cmd serial more m v e)
          | inr p ↦ rw (on, e, p, execute) (IsFree-effect more _ m u)
        ]
      ]
    ]

schedule-IsFree :
    (w : World) (cmd : Details) (more : ℕ) (m : Manager)
    → IsFree (suc more) m
    → IsFree more (schedule w cmd m)
unfolding schedule
schedule-IsFree w cmd more m v =
    let u = IsFree-fewer more m v in
    let age = ltb m.command_time_out ((w.now + 2 ^ 64 - cmd.submitted) % 2 ^ 64) in
    elim (Bool-cases (is_command_running cmd.uuid m)) [
      | inl r ↦ rw r u
      | inr r ↦ elim (Bool-cases age) [
        | inl a ↦ rw (r, a) (IsFree-effect more _ m u)
        | inr a ↦ elim (Option-cases cmd.serial_number) [
          | inl e ↦ rw (r, a, e, schedule) (IsFree-effect more _ m u)
          | inr (serial, e) ↦ rw (r, a, e, schedule) (execute-IsFree w cmd serial more m v)
        ]
      ]
    ]

batch-step :
    (w : World) (cmd : Details) (cmds : List Details) (m : Manager)
    → (schedule_batch w (cmd ∷ cmds) m ≡ schedule_batch w cmds (schedule w cmd m))
      ⊎ (schedule_batch w (cmd ∷ cmds) m ≡ m)
unfolding schedule_batch
batch-step w cmd cmds m = elim (Bool-cases m.running) [
  | inl e ↦ inl (ground arith)
  | inr e ↦ inr (ground arith)
]

IsFree-least : (more less : ℕ) (m : Manager) → less ≤ more → IsFree more m → IsFree less m
IsFree-least more less m le v = record {
  valid = v.valid;
  started = v.started;
  room = omega (arith, v.room);
  single = v.single;
}

-- However the devices, the clock and the storage behave, the scheduler never gives a device a
-- second request: if no device has two when a batch starts, none has two when it ends. The ids
-- must last for the batch and `more` commands.
pub schedule_batch-IsFree :
    (w : World) (cmds : List Details) (more : ℕ) (m : Manager)
    → IsFree (length cmds + more) m
    → IsFree more (schedule_batch w cmds m)
schedule_batch-IsFree w [] more m v = unfold schedule_batch in IsFree-least _ more m (omega arith) v
schedule_batch-IsFree w (cmd ∷ cmds) more m v = elim (batch-step w cmd cmds m) [
  | inl e ↦ rw e (
      schedule_batch-IsFree w cmds more _
        (schedule-IsFree w cmd (length cmds + more) m (IsFree-least _ _ m (omega arith) v)))
  | inr e ↦ rw e (IsFree-least _ more m (omega arith) v)
]
