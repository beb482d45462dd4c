-- ===== src/Commands/Post.antt =====
-- Sending a command, `CommandManager::PostCommand` of CommandManager.cpp, and the invariant of the
-- requests that wait.
use mathlib.Core.Path.{subst}
use wlan_cloud_ucentralgw.Base.{
  ℕ, ◌+◌, ◌%◌, ◌^◌, ◌≤◌, ◌<◌, ◌≡◌, refl, ◌⊎◌, Bool, true, false, ◌&&◌, Option, none, some, ◌==◌,
  if◌then◌else◌, arith, inl, inr, Bool-cases,
}
use wlan_cloud_ucentralgw.Base.Dict.{
  Dict, find, assign, erase, find-assign, find-erase, Rising, assign-Rising, erase-Rising,
}
use wlan_cloud_ucentralgw.Commands.{CommandInfo, Command, is_script, Manager, next_rpc_id}

-- The arguments of `PostCommand` that it keeps or tests. `promise` is the number of the promise
-- that it makes if `rpc` is set.
pub record Post : Type 0 where
  pub rpc_id : ℕ
  pub command : Command
  pub serial_number : ℕ
  pub uuid : ℕ
  pub oneway_rpc : Bool
  pub rpc : Bool
  pub deferred : Bool
  pub submitted : ℕ
  pub promise : ℕ

unfoldable pub command_info : Post → CommandInfo
command_info p = record {
  id = if p.oneway_rpc then 1 else p.rpc_id;
  serial_number = p.serial_number;
  command = p.command;
  uuid = p.uuid;
  state = if is_script p.command && p.deferred then 2 else 1;
  submitted = p.submitted;
  rpc_entry = if p.rpc then some p.promise else none;
  deferred = p.deferred;
}

pub record Posted : Type 0 where
  pub manager : Manager
  pub sent : Bool
  pub entry : Option ℕ

-- `frame_sent` is what `AP_WS_Server()->SendFrame` answers. The request is entered first, and
-- taken out again if the frame cannot be sent.
unfoldable pub post_command : Bool → Post → Manager → Posted
post_command frame_sent p m =
    let c = command_info p in
    let entered = if p.oneway_rpc then m.outstanding else assign p.rpc_id c m.outstanding in
    if frame_sent
    then record { manager = record m { outstanding = entered }; sent = true; entry = c.rpc_entry }
    else record {
      manager = record m { outstanding = if p.oneway_rpc then entered else erase p.rpc_id entered };
      sent = false;
      entry = none;
    }

oneway-same :
    (frame_sent : Bool) (p : Post) (m : Manager)
    → p.oneway_rpc ≡ true
    → (post_command frame_sent p m).manager ≡ m
unfolding post_command
oneway-same frame_sent p m one = ground arith

posted :
    (frame_sent : Bool) (p : Post) (m : Manager)
    → p.oneway_rpc ≡ false
    → frame_sent ≡ true
    → (post_command frame_sent p m).manager
      ≡ record m { outstanding = assign p.rpc_id (command_info p) m.outstanding }
unfolding post_command
posted frame_sent p m two yea = ground arith

withdrawn :
    (frame_sent : Bool) (p : Post) (m : Manager)
    → p.oneway_rpc ≡ false
    → frame_sent ≡ false
    → (post_command frame_sent p m).manager
      ≡ record m { outstanding = erase p.rpc_id (assign p.rpc_id (command_info p) m.outstanding) }
unfolding post_command
withdrawn frame_sent p m two nay = ground arith

-- A request has its key for its id, was given that id, and is in a state that the code knows.
pub record IsGood (last id : ℕ) (c : CommandInfo) : Type 0 where
  pub own : c.id ≡ id
  pub given : id ≤ last
  pub known : (c.state ≡ 1) ⊎ (c.state ≡ 2)

abbrev pub AllGood : ℕ → Dict CommandInfo → Type 0
AllGood last d = (id : ℕ) (c : CommandInfo) → find id d ≡ some c → IsGood last id c

pub record IsValid (m : Manager) : Type 0 where
  pub rising : Rising 0 m.outstanding
  pub good : AllGood m.last_id m.outstanding

pub assign-AllGood :
    (last id : ℕ) (c : CommandInfo) (d : Dict CommandInfo)
    → IsGood last id c
    → AllGood last d
    → AllGood last (assign id c d)
assign-AllGood last id c d g all j e h = elim (Bool-cases (id == j)) [
  | inl t ↦
      let same : id ≡ j = ground arith in
      let it : c ≡ e = ground (arith, find-assign id j c d) in
      subst (IsGood last j) it (subst (λ x. IsGood last x c) same g)
  | inr t ↦ all j e (ground (arith, find-assign id j c d))
]

pub erase-AllGood :
    (last id : ℕ) (d : Dict CommandInfo) → AllGood last d → AllGood last (erase id d)
erase-AllGood last id d all j e h = all j e (ground (arith, find-erase id j d))

-- A new id is above 1, so that its answer is not ignored, and no request has it. The ids do not
-- wrap before 2^64 commands are sent.
pub next_rpc_id-fresh :
    (m : Manager)
    → IsValid m
    → 3 ≤ m.last_id
    → m.last_id + 1 < 2 ^ 64
    → let (t, id) = next_rpc_id m in
      (1 < id) × (find id t.outstanding ≡ none) × (t.last_id ≡ id) × IsValid t
unfolding next_rpc_id
next_rpc_id-fresh m v lo hi = (
  omega arith,
  fresh (find _ m.outstanding) refl,
  refl,
  record {
    rising = v.rising;
    good = λ id c e.
        let g = v.good id c e in
        record { own = g.own; given = omega (arith, g.given); known = g.known };
  },
)
  where
    fresh :
        (o : Option CommandInfo)
        → find ((m.last_id + 1) % 2 ^ 64) m.outstanding ≡ o
        → find ((m.last_id + 1) % 2 ^ 64) m.outstanding ≡ none
    fresh none e = e
    fresh (some c) e = absurd (omega (arith, (v.good _ c e).given))

-- A sent request waits under its id, in state 2 exactly if it is a deferred script, and one-way
-- requests do not wait. A request that could not be sent leaves what waits as it was, and nobody
-- gets a promise.
pub post_command_lem :
    (frame_sent : Bool) (p : Post) (m : Manager)
    → find p.rpc_id m.outstanding ≡ none
    → let r = post_command frame_sent p m in
      (r.sent ≡ frame_sent)
      × ((j : ℕ)
          → find j r.manager.outstanding ≡ (
              if frame_sent && elim p.oneway_rpc [ true ↦ false | false ↦ p.rpc_id == j ]
              then some (command_info p)
              else find j m.outstanding))
      × (r.entry ≡ (if frame_sent && p.rpc then some p.promise else none))
unfolding post_command command_info
post_command_lem frame_sent p m fresh = (
  ground arith,
  λ j. ground (
    arith,
    find-assign p.rpc_id j (command_info p) m.outstanding,
    find-erase p.rpc_id j (assign p.rpc_id (command_info p) m.outstanding),
  ),
  ground arith,
)

command_info-IsGood :
    (p : Post) (last : ℕ)
    → p.rpc_id ≤ last
    → p.oneway_rpc ≡ false
    → IsGood last p.rpc_id (command_info p)
unfolding command_info
command_info-IsGood p last h two = record { own = ground arith; given = h; known = ground arith }

-- With an id that was given out, posting keeps the requests valid, whether the frame is sent or not.
pub post_command-IsValid :
    (frame_sent : Bool) (p : Post) (m : Manager)
    → IsValid m
    → p.rpc_id ≤ m.last_id
    → IsValid (post_command frame_sent p m).manager
post_command-IsValid frame_sent p m v given = elim (Bool-cases p.oneway_rpc) [
  | inl one ↦ rw (oneway-same frame_sent p m one) v
  | inr two ↦
      let rising = assign-Rising 0 p.rpc_id (command_info p) m.outstanding (omega arith) v.rising in
      let good =
        assign-AllGood m.last_id p.rpc_id (command_info p) m.outstanding
          (command_info-IsGood p m.last_id given two) v.good in
      elim (Bool-cases frame_sent) [
        | inl yea ↦ rw (posted frame_sent p m two yea) (record { rising = rising; good = good })
        | inr nay ↦ rw (withdrawn frame_sent p m two nay) (record {
          rising = erase-Rising 0 p.rpc_id _ rising;
          good = erase-AllGood m.last_id p.rpc_id _ good;
        })
      ]
]
