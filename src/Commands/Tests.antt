-- ===== src/Commands/Tests.antt =====
-- Runs of the command manager of CommandManager.cpp, and its theorems at concrete inputs.
use wlan_cloud_ucentralgw.Base.{
  ℕ, ◌+◌, ◌≤◌, ◌<◌, ◌≡◌, refl, ◌≢◌, ◌⊎◌, inl, true, false, none, some, [], ◌∷◌, ◌==◌, if◌then◌else◌,
  arith,
}
use wlan_cloud_ucentralgw.Base.Dict.{find}
use wlan_cloud_ucentralgw.Commands.{
  Member, missing, present, Status, Result, set_command_timed_out, CommandInfo, script, configure,
  trace, reboot, Manager,
}
use wlan_cloud_ucentralgw.Commands.Answer.{Notification, process, settle, run}
use wlan_cloud_ucentralgw.Commands.Complete.{Answers, process-isolated, process_configure_malformed}
use wlan_cloud_ucentralgw.Commands.Script.{Starts, deferred_script}
use wlan_cloud_ucentralgw.Commands.Post.{Post, IsGood, IsValid}
use wlan_cloud_ucentralgw.Commands.Janitor.{
  Logged, on_janitor_timer, unless_overdue, on_janitor_timer-cases,
}
use wlan_cloud_ucentralgw.Commands.Scheduler.{Details, World, schedule_batch, schedule_loop}
use wlan_cloud_ucentralgw.Commands.Scheduler.Single.{IsFree, schedule_batch-IsFree}
use wlan_cloud_ucentralgw.Commands.Scheduler.Ends.{schedule_loop_total}

abbrev reboot_5 : CommandInfo
reboot_5 = record {
  id = 5;
  serial_number = 0x11;
  command = reboot;
  uuid = 50;
  state = 1;
  submitted = 0;
  rpc_entry = some 1;
  deferred = false;
}

abbrev script_6 : CommandInfo
script_6 = record {
  id = 6;
  serial_number = 0x22;
  command = script;
  uuid = 60;
  state = 2;
  submitted = 0;
  rpc_entry = some 2;
  deferred = true;
}

abbrev configure_7 : CommandInfo
configure_7 = record {
  id = 7;
  serial_number = 0x33;
  command = configure;
  uuid = 70;
  state = 1;
  submitted = 0;
  rpc_entry = none;
  deferred = false;
}

abbrev three : Manager
three = record {
  outstanding = (5, reboot_5) ∷ (6, script_6) ∷ (7, configure_7) ∷ [];
  last_id = 7;
  command_time_out = 14400;
  running = true;
  log = [];
  fulfilled = [];
}

abbrev status_of : ℕ → Status
status_of e = record { error = present e; text = present 0 }

abbrev result_of : ℕ → Result
result_of e = record { status = present (status_of e); serial = present 0x33 }

abbrev answer : ℕ → ℕ → Member Result → Notification
answer serial id r = record {
  serial_number = serial;
  payload = record { id = present id; result = r };
}

waiting_5 : find 5 three.outstanding ≡ some reboot_5
unfolding find
waiting_5 = refl

waiting_6 : find 6 three.outstanding ≡ some script_6
unfolding find
waiting_6 = refl

waiting_7 : find 7 three.outstanding ≡ some configure_7
unfolding find
waiting_7 = refl

three-IsGood : (id : ℕ) (c : CommandInfo) → find id three.outstanding ≡ some c → IsGood 7 id c
unfolding find
three-IsGood id c e = record { own = ground arith; given = ground arith; known = ground arith }

three-IsValid : IsValid three
three-IsValid = record { rising = omega arith; good = three-IsGood }

Answers-5 : Answers (answer 0x11 5 missing) three 5 reboot_5
Answers-5 = record {
  asked = refl;
  legal = omega arith;
  waiting = waiting_5;
  sender = refl;
  own = refl;
}

Answers-6 : (r : Member Result) → Answers (answer 0x22 6 r) three 6 script_6
Answers-6 r = record {
  asked = refl;
  legal = omega arith;
  waiting = waiting_6;
  sender = refl;
  own = refl;
}

Answers-7 : (r : Member Result) → Answers (answer 0x33 7 r) three 7 configure_7
Answers-7 r = record {
  asked = refl;
  legal = omega arith;
  waiting = waiting_7;
  sender = refl;
  own = refl;
}

process-isolated_example :
    find 5 (settle (process (answer 0x22 5 missing) three)).outstanding ≡ some reboot_5
process-isolated_example =
    process-isolated (answer 0x22 5 missing) three (λ id c e. (three-IsGood id c e).own) 5 reboot_5
      waiting_5 (λ e. omega arith)

nobody_fits :
    (id : ℕ) (c : CommandInfo)
    → present 5 ≡ present id
    → 1 < id
    → find id three.outstanding ≡ some c
    → c.serial_number ≢ 0x22
unfolding find
nobody_fits id c a b e = ground arith

abbrev bad_status : Status
bad_status = record { error = missing; text = missing }

abbrev bad_result : Result
bad_result = record { status = present bad_status; serial = present 0x33 }

process_configure_malformed_example :
    (settle (process (answer 0x33 7 (present bad_result)) three)).outstanding ≡ three.outstanding
process_configure_malformed_example =
    (process_configure_malformed (answer 0x33 7 (present bad_result)) three 7 configure_7 bad_result
      bad_status (Answers-7 _) refl refl refl refl (λ e. cc) (inl refl)).0

starts : (e : ℕ) → Starts (answer 0x22 6 (present (result_of e))).payload e
starts e = record {
  result = result_of e;
  status = status_of e;
  has_result = refl;
  has_status = refl;
  has_error = refl;
}

deferred_script_example :
    (run (answer 0x22 6 (present (result_of 0)) ∷ answer 0x22 6 missing ∷ []) three).fulfilled
    ≡ (2, (answer 0x22 6 (present (result_of 0))).payload) ∷ []
deferred_script_example =
    (deferred_script (answer 0x22 6 (present (result_of 0))) (answer 0x22 6 missing) three 6
      script_6 (Answers-6 _) refl refl refl refl (starts 0) refl refl).2

abbrev start_of : ℕ → Starts (answer 0x22 6 (present (result_of 1))).payload 1
start_of n = record {
  result = result_of 1;
  status = status_of 1;
  has_result = refl;
  has_status = refl;
  has_error = refl;
}

abbrev no_status : Result
no_status = record { status = missing; serial = missing }

abbrev post_8 : Post
post_8 = record {
  rpc_id = 8;
  command = trace;
  serial_number = 0x44;
  uuid = 80;
  oneway_rpc = false;
  rpc = true;
  deferred = false;
  submitted = 0;
  promise = 3;
}

free_8 : find 8 three.outstanding ≡ none
unfolding find
free_8 = refl

finds_5 : find 5 three.outstanding ≡ some reboot_5
unfolding find
finds_5 = refl

on_janitor_timer-cases_example :
    let t = on_janitor_timer 600001 three in
    (((0 + 600000 < 600001)
        × (find 5 t.outstanding ≡ none)
        × Logged (set_command_timed_out 50) t.log)
      ⊎ ((600001 ≤ 0 + 600000) × (find 5 t.outstanding ≡ some reboot_5)))
    × ((i : ℕ) → find i t.outstanding ≡ unless_overdue 600001 (find i three.outstanding))
    × IsValid t
on_janitor_timer-cases_example =
    on_janitor_timer-cases 600001 three 5 reboot_5 three-IsValid finds_5

three-IsFree : IsFree 2 three
unfolding find
three-IsFree = record {
  valid = three-IsValid;
  started = omega arith;
  room = omega arith;
  single = λ i j b c ei ej same. ground arith;
}

abbrev reboot_again : Details
reboot_again = record {
  uuid = 90;
  serial_number = some 0x11;
  command = reboot;
  submitted = 100;
  parses = true;
}

abbrev world : World
world = record {
  now = 200;
  submit_time = 200000;
  connected = λ serial. true;
  sends = λ serial id. true;
  ready = λ offset m. if offset == 0 then some (reboot_again ∷ []) else none;
}

schedule_batch-IsFree_example : IsFree 1 (schedule_batch world (reboot_again ∷ []) three)
schedule_batch-IsFree_example = schedule_batch-IsFree world (reboot_again ∷ []) 1 three three-IsFree

world_ends : (o : ℕ) (s : Manager) → 1 ≤ o → (world.ready o s ≡ none) ⊎ (world.ready o s ≡ some [])
world_ends o s h = inl (ground arith)

schedule_loop_total_example : (r : Manager) × (schedule_loop world 2 0 three ≡ some r)
schedule_loop_total_example = schedule_loop_total world 1 1 0 three world_ends (omega arith)
