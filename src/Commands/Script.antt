-- ===== src/Commands/Script.antt =====
-- The life of a script request, CommandManager.cpp: a deferred script is answered twice, once when
-- it starts (state 2) and once when it ends (state 1).
use wlan_cloud_ucentralgw.Base.{
  ℕ, ◌≡◌, refl, sym, ◌∙◌, ==_refl, ◌≢◌, true, none, some, [], ◌∷◌, ◌++◌, ◌==◌, if◌then◌else◌, arith,
}
use wlan_cloud_ucentralgw.Base.Dict.{find, find-assign}
use wlan_cloud_ucentralgw.Commands.{
  missing, present, Status, Result, Payload, CommandInfo, script, command_completed,
  cancel_wait_file, Manager, record_effect,
}
use wlan_cloud_ucentralgw.Commands.Answer.{
  Notification, set_value, script_started, script_state, complete_script_command, ok, dispatch,
  process, settle, run,
}
use wlan_cloud_ucentralgw.Commands.Complete.{Answers, fulfil, process-dispatch, find-forget}

-- The answer says how the start went.
pub record Starts (p : Payload) (error : ℕ) : Type 0 where
  pub result : Result
  pub status : Status
  pub has_result : p.result ≡ present result
  pub has_status : result.status ≡ present status
  pub has_error : status.error ≡ present error

script-dispatch :
    (id : ℕ) (c : CommandInfo) (p : Payload) (s : Manager)
    → c.command ≡ script
    → dispatch id c p s ≡ complete_script_command id c p s
unfolding dispatch
script-dispatch id c p s k = rw (k, dispatch) refl

module _ (n : Notification) (s : Manager) (id : ℕ) (c : CommandInfo) (a : Answers n s id c)
    (k : c.command ≡ script) where
  script-process : process n s ≡ complete_script_command id c n.payload s
  script-process = process-dispatch n s id c a ∙ script-dispatch id c n.payload s k

  -- A deferred script whose start went well: the answer is recorded and handed to the one who
  -- waits, and the request stays, to be answered once more.
  pub script_started_lem :
      c.state ≡ 2
      → Starts n.payload 0
      → let t = settle (process n s) in
        ((j : ℕ)
          → find j t.outstanding
            ≡ (if id == j then some (record c { state = 1 }) else find j s.outstanding))
        × (t.log ≡ s.log ++ (command_completed c.uuid ∷ []))
        × (t.fulfilled ≡ fulfil c.rpc_entry n.payload s.fulfilled)
  unfolding complete_script_command script_state script_started record_effect set_value
  script_started_lem two st = rw script-process (
    λ j. ground (arith, find-assign id j (record c { state = 1 }) s.outstanding),
    ground arith,
    ground arith,
  )

  script_started-running :
      c.state ≡ 2 → Starts n.payload 0 → (settle (process n s)).running ≡ s.running
  unfolding complete_script_command script_state script_started record_effect set_value
  script_started-running two st = rw script-process (ground arith)

  -- A script whose start went wrong: the wait for its file is cancelled, and the request is gone.
  pub script_refused :
      (error text : ℕ)
      → c.state ≡ 2
      → (st : Starts n.payload error) → error ≢ 0
      → st.status.text ≡ present text
      → let t = settle (process n s) in
        ((j : ℕ) → find j t.outstanding ≡ (if id == j then none else find j s.outstanding))
        × (t.log ≡ (s.log ++ (command_completed c.uuid ∷ [])) ++ (cancel_wait_file c.uuid ∷ []))
        × (t.fulfilled ≡ fulfil c.rpc_entry n.payload s.fulfilled)
  unfolding complete_script_command script_state script_started record_effect set_value
  script_refused error text two st bad has_text =
      rw script-process
        (λ j. ground (arith, a.own, find-forget id c 0 j s.outstanding), ground arith, ground arith)

  -- The end of a script, and of one that was not deferred: the request is gone, and the promise
  -- gets the answer only if the script was not deferred.
  pub script_ended :
      c.state ≡ 1
      → let t = settle (process n s) in
        ((j : ℕ) → find j t.outstanding ≡ (if id == j then none else find j s.outstanding))
        × (t.log ≡ s.log ++ (command_completed c.uuid ∷ []))
        × (t.fulfilled
            ≡ (if c.deferred then s.fulfilled else fulfil c.rpc_entry n.payload s.fulfilled))
  unfolding complete_script_command script_state script_started record_effect set_value
  script_ended one =
      rw script-process
        (λ j. ground (arith, a.own, find-forget id c 0 j s.outstanding), ground arith, ground arith)

  -- The end of a deferred script throws nothing: the promise is not given a second value.
  script_ended-ok : c.state ≡ 1 → c.deferred ≡ true → process n s ≡ ok tt (settle (process n s))
  unfolding complete_script_command script_state record_effect set_value
  script_ended-ok one later = rw script-process (ground (arith, one, later))

  -- An answer to the start whose result has no status: the promise gets it all the same, nothing
  -- is recorded, and the request stays in state 2.
  pub script_no_status :
      (r : Result)
      → c.state ≡ 2
      → n.payload.result ≡ present r
      → r.status ≡ missing
      → let t = settle (process n s) in
        (find id t.outstanding ≡ some c)
        × (t.log ≡ s.log)
        × (t.fulfilled ≡ fulfil c.rpc_entry n.payload s.fulfilled)
  unfolding complete_script_command script_state script_started record_effect set_value
  script_no_status r two e m = rw script-process (
    ground (arith, find-assign id id (record c { state = c.state }) s.outstanding, ==_refl id),
    ground arith,
    ground arith,
  )

run-two :
    (n m : Notification) (s : Manager)
    → s.running ≡ true
    → (settle (process n s)).running ≡ true
    → run (n ∷ m ∷ []) s ≡ settle (process m (settle (process n s)))
unfolding run
run-two n m s up live = ground arith

-- The life of a deferred script whose start goes well, over the two answers of its device: the
-- promise gets the first of them, unless it has a value, and nothing of the second, both are
-- recorded as completions, and after the second, which throws nothing, the request is gone, and
-- no other.
pub deferred_script :
    (n m : Notification) (s : Manager) (id : ℕ) (c : CommandInfo)
    → Answers n s id c
    → s.running ≡ true
    → c.command ≡ script
    → c.state ≡ 2
    → c.deferred ≡ true
    → Starts n.payload 0
    → m.payload.id ≡ present id
    → m.serial_number ≡ n.serial_number
    → let t = run (n ∷ m ∷ []) s in
      ((j : ℕ) → find j t.outstanding ≡ (if id == j then none else find j s.outstanding))
      × (t.log ≡ (s.log ++ (command_completed c.uuid ∷ [])) ++ (command_completed c.uuid ∷ []))
      × (t.fulfilled ≡ fulfil c.rpc_entry n.payload s.fulfilled)
      × (process m (settle (process n s)) ≡ ok tt t)
deferred_script n m s id c a up k two later st again sender =
    let (out, log, ful) = script_started_lem n s id c a k two st in
    let (out', log', ful') = script_ended m t id d second k refl in
    rw (run-two n m s up live) (
      λ j. out' j ∙ ground (arith, out j),
      log' ∙ ground arith,
      ful' ∙ ground arith,
      script_ended-ok m t id d second k refl later,
    )
  where
    t : Manager
    t = settle (process n s)

    d : CommandInfo
    d = record c { state = 1 }

    live : t.running ≡ true
    live = script_started-running n s id c a k two st ∙ up

    second : Answers m t id d
    second = record {
      asked = again;
      legal = a.legal;
      waiting = ground (arith, ==_refl id, (script_started_lem n s id c a k two st).0 id);
      sender = a.sender ∙ sym sender;
      own = a.own;
    }
