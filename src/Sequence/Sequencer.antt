-- ===== src/Sequence/Sequencer.antt =====
-- `seq_sequencer` of src/myrefl_sequence.c, which walks through tests, rules and actions. What it
-- calls, on a state of its own, are the operations of an engine; objects, instances and names are
-- numbers. The depth of its calls to itself is fuel, and none means that it goes deeper.
pub mod Wired
pub mod Returns
pub mod Actions
pub mod Spread
use myreflection.Common.{
  ℕ, zero, suc, Bool, true, false, not, ◌&&◌, ◌||◌, Option, none, some, List, [], ◌∷◌, ◌==◌,
  if◌then◌else◌, ◌>>=◌,
}
use myreflection.Common.Int.{ℤ, pos}
use myreflection.Types.{
  Result, invalid, pass, abort, in_progress, ignore, is_pass, ObjType, any, test, rule, action,
  same_result, is_test, is_rule, is_action,
}

-- seq_event_t.
pub data Event : Type 0 where
  test_run test_result test_result_rci rule_process_input rule_run rule_run_rci rule_result rci_run
        rule_root_cause action_run action_result :
      Event

-- How the objects are connected: a test's first rule, the rules behind a rule in its input's chain
-- (next_in_input), a rule's output and actions, and the rules that an action confirms.
pub record Wiring : Type 0 where
  pub kind : ℕ → ObjType
  pub base : ℕ → ℕ
  pub members : ℕ → List ℕ
  pub owner : ℕ → ℕ
  pub name : ℕ → ℕ
  pub is_polled : ℕ → Bool
  pub is_autopass : ℕ → Bool
  pub has_function : ℕ → Bool
  pub first_rule : ℕ → Option ℕ
  pub behind : ℕ → List ℕ
  pub output : ℕ → Option ℕ
  pub action_list : ℕ → List ℕ
  pub rule_list : ℕ → List ℕ
  pub is_silent : ℕ → Bool
  pub is_built_in : ℕ → Bool

-- What the sequencer calls and reads: the functions of the client, the statistics, the scheduler,
-- root cause identification, and the fields of instances.
pub record Engine (S : Type 0) : Type 0 where
  pub instance_validate : ℕ → ObjType → S → Bool
  pub validate : ℕ → ObjType → S → Bool
  pub is_deleted : ℕ → S → Bool
  pub hold : ℕ → S → S
  pub release : ℕ → S → S
  pub call_test : ℕ → ℤ → S → Result × ℤ × S
  pub call_action : ℕ → S → Result × S
  pub set_last_time : ℕ → S → S
  pub stats_update : ℕ → Result → ℤ → S → S
  pub add_test : ℕ → S → S
  pub run_rule : ℕ → Result → ℤ → S → Result × S
  pub run_rci : ℕ → Result → S → S
  pub recovery_in_progress : ℕ → ℕ → S → S
  pub rule_immediate : ℕ → S → S
  pub last_result : ℕ → S → Result
  pub has_run : ℕ → S → Bool
  pub set_run : ℕ → Bool → S → S

-- The search of `myrefl_obj_instance` among the members.
unfoldable pub find_instance : (ℕ → ℕ) → (name default : ℕ) → List ℕ → ℕ
find_instance called name default [] = default
find_instance called name default (m ∷ ms) =
    let rest = find_instance called name default ms in if called m == name then m else rest

-- `myrefl_obj_instance`.
unfoldable pub obj_instance : Wiring → (object reference : ℕ) → ℕ
obj_instance w o i =
    if w.base (w.owner i) == i
    then w.base o
    else find_instance w.name (w.name i) (w.base o) (w.members o)

-- The instance of an object that matches another instance, or all where that is the base instance.
unfoldable pub instances_for : Wiring → (object reference : ℕ) → List ℕ
instances_for w o i =
    if w.base o == obj_instance w o i then w.base o ∷ w.members o else obj_instance w o i ∷ []

unfoldable pub for_each : {S : Type 0} → (ℕ → S → Option S) → List ℕ → S → Option S
for_each f [] s = some s
for_each f (x ∷ xs) s = do s' ← f x s; for_each f xs s'

-- How the sequencer calls itself.
abbrev pub Self : Type 0 → Type 0
Self S = Event → ℕ → Result → ℤ → S → Option S

module _ {S : Type 0} (e : Engine S) (w : Wiring) where
  -- `myrefl_seq_test_run`, with the value.
  unfoldable pub seq_test_run : ℕ → ℤ → S → Result × ℤ × S
  seq_test_run i value s =
      let (result, value', s') = e.call_test i value (e.hold i s) in
      if not (e.instance_validate i test s)
      then (invalid, value, s)
      else if w.is_polled (w.owner i) && w.has_function (w.owner i)
      then (result, value', e.release i s')
      else (invalid, value, s)

  -- `seq_action_run`.
  unfoldable pub seq_action_run : ℕ → S → Result × S
  seq_action_run i s =
      let (result, s') = e.call_action i (e.hold i s) in
      if not (e.instance_validate i action s)
      then (abort, s)
      else if w.has_function (w.owner i)
      then (result, e.stats_update i result (pos 0) (e.release i s'))
      else (abort, e.stats_update i abort (pos 0) s)

  -- A result for a rule instance; root cause identification alone learns of an abort.
  unfoldable pub to_rule : Self S → (rci : Bool) → Result → ℤ → ℕ → S → Option S
  to_rule self rci Result.abort value k s = some (e.run_rci k abort s)
  to_rule self rci result value k s = self (if rci then rule_run_rci else rule_run) k result value s

  -- The loop over the rules that take the instance's result.
  unfoldable pub to_rules : Self S → (rci : Bool) → Result → ℤ → ℕ → List ℕ → S → Option S
  to_rules self rci result value i rules s =
      for_each (λ r. for_each (to_rule self rci result value) (instances_for w r i)) rules s

  abbrev pub chain_of : Option ℕ → List ℕ
  chain_of none = []
  chain_of (some r) = r ∷ w.behind r

  -- SEQ_TEST_RESULT_RCI, and SEQ_TEST_RESULT once it has set the time.
  unfoldable pub on_test_result : Self S → (rci : Bool) → ℕ → Result → ℤ → S → Option S
  on_test_result self rci i result value s =
      let t = w.owner i in
      let s1 = if rci then s else e.stats_update i result value s in
      let s2 = if w.is_polled t || w.is_autopass t then e.add_test i s1 else s1 in
      if not (is_test (w.kind t))
      then some s
      else if same_result result ignore
      then some (if w.is_polled t then e.add_test i s else s)
      else to_rules self rci result value i (chain_of (w.first_rule t)) s2

  -- SEQ_TEST_RUN.
  unfoldable pub on_test_run : Self S → ℕ → ℤ → S → Option S
  on_test_run self i value s =
      let (result, value', s') = seq_test_run i value s in
      if not (is_test (w.kind (w.owner i)))
      then some s
      else if not (e.instance_validate i test s')
      then some s'
      else if same_result result in_progress
      then some s'
      else on_test_result self false i result value' (e.set_last_time i s')

  -- SEQ_RULE_PROCESS_INPUT.
  unfoldable pub on_process_input : Self S → ℕ → Result → ℤ → S → Option S
  on_process_input self i result value s =
      let r = w.owner i in
      if is_rule (w.kind r) then to_rules self false result value i (r ∷ w.behind r) s else some s

  -- The rules fed by a rule.
  unfoldable pub to_output : Self S → Option ℕ → ℕ → Result → S → Option S
  to_output self none i result s = some s
  to_output self (some o) i result s =
      if e.validate o rule s
      then for_each (λ k. self rule_process_input k result (pos 0)) (instances_for w o i) s
      else some s

  -- SEQ_RULE_RESULT.
  unfoldable pub on_rule_result : Self S → ℕ → Result → S → Option S
  on_rule_result self i result s =
      let s1 = if is_pass result && e.has_run i s then e.set_run i false s else s in
      if is_rule (w.kind (w.owner i))
      then (do s2 ← to_output self (w.output (w.owner i)) i result s1; some (e.run_rci i result s2))
      else some s

  -- SEQ_RULE_RUN.
  unfoldable pub on_rule_run : Self S → ℕ → Result → ℤ → S → Option S
  on_rule_run self i result value s =
      let (result', s') = e.run_rule i result value s in on_rule_result self i result' s'

  -- SEQ_RULE_ROOT_CAUSE for an action of the rule.
  unfoldable pub to_action : Self S → ℕ → Result → ℕ → S → Option S
  to_action self i result a s =
      let k = obj_instance w a i in
      self action_run k result (pos 0)
        (if w.is_silent (w.owner k) then s else e.recovery_in_progress i k s)

  -- SEQ_RULE_ROOT_CAUSE.
  unfoldable pub on_root_cause : Self S → ℕ → Result → S → Option S
  on_root_cause self i result s =
      if not (is_rule (w.kind (w.owner i)))
      then some s
      else if e.has_run i s
      then some s
      else for_each (to_action self i result) (w.action_list (w.owner i)) (e.set_run i true s)

  -- SEQ_ACTION_RESULT.
  unfoldable pub on_action_result : ℕ → Result → S → Option S
  on_action_result i result s =
      let a = w.owner i in
      if is_action (w.kind a) && (is_pass result && not (w.is_built_in a))
      then for_each (λ r s'. some (e.rule_immediate (obj_instance w r i) s')) (w.rule_list a) s
      else some s

  -- SEQ_ACTION_RUN.
  unfoldable pub on_action_run : ℕ → S → Option S
  on_action_run i s =
      let (result, s') = seq_action_run i s in
      if not (e.validate (w.owner i) action s') || e.is_deleted i s'
      then some s'
      else if same_result result in_progress
      then some s'
      else on_action_result i result s'

  unfoldable pub on_event : Self S → Event → ℕ → Result → ℤ → S → Option S
  on_event self test_run i result value s = on_test_run self i value s
  on_event self test_result i result value s =
      on_test_result self false i result value (e.set_last_time i s)
  on_event self test_result_rci i result value s = on_test_result self true i result value s
  on_event self rule_process_input i result value s = on_process_input self i result value s
  on_event self rule_run i result value s = on_rule_run self i result value s
  on_event self rule_run_rci i result value s = on_rule_result self i (e.last_result i s) s
  on_event self rule_result i result value s = on_rule_result self i result s
  on_event self rci_run i result value s =
      some (if is_rule (w.kind (w.owner i)) then e.run_rci i result s else s)
  on_event self rule_root_cause i result value s = on_root_cause self i result s
  on_event self action_run i result value s = on_action_run i s
  on_event self action_result i result value s = on_action_result i result s

  -- `seq_sequencer`.
  unfoldable pub sequencer : (fuel : ℕ) → Self S
  sequencer zero event i result value s = none
  sequencer (suc fuel) event i result value s =
      if e.instance_validate i any s
      then on_event (sequencer fuel) event i result value s
      else some s
