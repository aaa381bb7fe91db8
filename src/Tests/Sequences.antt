-- ===== src/Tests/Sequences.antt =====
-- The sequencer with an engine that keeps a log: test 1 feeds rule 2, which feeds rule 3 with the
-- members 10 and 11, and has action 4. The base instance of an object is three times the object.
use myreflection.Common.{
  ℕ, zero, ◌*◌, ◌/◌, ◌≡◌, refl, true, false, Bool, none, some, List, [], ◌∷◌, arith, has,
  if◌then◌else◌, ◌==◌, update, ◌>>=◌,
}
use myreflection.Common.Int.{pos}
use myreflection.Types.{pass, fail, test, rule, action}
use myreflection.Sequence.Sequencer.{
  test_run, rule_result, rule_root_cause, Wiring, Engine, find_instance, obj_instance,
  instances_for, for_each, to_rule, to_rules, sequencer, seq_test_run, seq_action_run,
  on_test_result, on_test_run, on_process_input, to_output, on_rule_result, on_rule_run, to_action,
  on_root_cause, on_action_result, on_action_run, on_event,
}
use myreflection.Sequence.Sequencer.Wired.{IsWired}
use myreflection.Sequence.Sequencer.Actions.{KeepsRun, Performed, root_cause-runs_once}
use myreflection.Sequence.Sequencer.Spread.{names, IsNamed, StaysValid, rule_result-runs_twice}

-- What was done, the latest first.
pub data Entry : Type 0 where
  measured counted scheduled ruled examined recovered repaired confirmed : ℕ → Entry

pub record Log : Type 0 where
  pub entries : List Entry
  pub ran : ℕ → Bool

abbrev pub enter : Entry → Log → Log
enter x s = record s { entries = x ∷ s.entries }

-- Tests and rules fail, and actions pass.
abbrev pub logging : Engine Log
logging = record {
  instance_validate = λ i t s. true;
  validate = λ o t s. true;
  is_deleted = λ i s. false;
  hold = λ i s. s;
  release = λ i s. s;
  call_test = λ i v s. (fail, v, enter (measured i) s);
  call_action = λ i s. (pass, enter (repaired i) s);
  set_last_time = λ i s. s;
  stats_update = λ i r v s. enter (counted i) s;
  add_test = λ i s. enter (scheduled i) s;
  run_rule = λ i r v s. (fail, enter (ruled i) s);
  run_rci = λ i r s. enter (examined i) s;
  recovery_in_progress = λ i k s. enter (recovered k) s;
  rule_immediate = λ i s. enter (confirmed i) s;
  last_result = λ i s. fail;
  has_run = λ i s. s.ran i;
  set_run = λ i b s. record s { ran = update s.ran i b };
}

abbrev wiring : Wiring
wiring = record {
  kind = λ o. if o == 1 then test else if o == 4 then action else rule;
  base = λ o. 3 * o;
  members = λ o. if o == 3 then 10 ∷ 11 ∷ [] else [];
  owner = λ i. i / 3;
  name = λ i. i;
  is_polled = λ o. true;
  is_autopass = λ o. false;
  has_function = λ o. true;
  first_rule = λ t. if t == 1 then some 2 else none;
  behind = λ r. [];
  output = λ r. if r == 2 then some 3 else none;
  action_list = λ r. if r == 2 then 4 ∷ [] else [];
  rule_list = λ a. if a == 4 then 2 ∷ [] else [];
  is_silent = λ a. false;
  is_built_in = λ a. false;
}

abbrev pub started : Log
started = record { entries = []; ran = λ i. false }

abbrev height : ℕ → ℕ
height r = if r == 2 then 1 else 0

-- A failing test is counted and scheduled, then its rule is run, and so is the rule that this feeds,
-- with each of its members twice.
test_runs :
    (sequencer logging wiring 6 test_run 3 fail (pos 0) started >>= λ s. some s.entries)
    ≡ some (
        examined 6
        ∷ examined 11
        ∷ ruled 11
        ∷ examined 10
        ∷ ruled 10
        ∷ examined 11
        ∷ ruled 11
        ∷ examined 10
        ∷ ruled 10
        ∷ examined 9
        ∷ ruled 9
        ∷ ruled 6
        ∷ scheduled 3
        ∷ counted 3
        ∷ measured 3
        ∷ [])
unfolding sequencer on_event on_test_run seq_test_run on_test_result to_rules to_rule for_each
    instances_for obj_instance find_instance on_rule_run on_rule_result to_output on_process_input
test_runs = refl

-- A root cause runs its action, which asks for the rule's tests.
cause_runs :
    (sequencer logging wiring 6 rule_root_cause 6 fail (pos 0) started >>= λ s. some s.entries)
    ≡ some (confirmed 6 ∷ counted 12 ∷ repaired 12 ∷ recovered 12 ∷ [])
unfolding sequencer on_event on_root_cause to_action on_action_run seq_action_run on_action_result
    for_each instances_for obj_instance find_instance
cause_runs = refl

wiring-IsWired : IsWired wiring height 1
unfolding has
wiring-IsWired = record {
  owned = λ o. omega arith;
  members_owned = λ o m h. ground (arith, h);
  lower = λ r o q out h. ground (arith, out, h);
  bounded = λ r. ground arith;
}

logging-KeepsRun : KeepsRun logging
logging-KeepsRun = record {
  has_run-set_run = λ i b s. ground arith;
  has_run-hold = λ i k s. refl;
  has_run-release = λ i k s. refl;
  has_run-call_action = λ i k s. refl;
  has_run-stats_update = λ i k r v s. refl;
  has_run-recovery = λ i k a s. refl;
  has_run-immediate = λ i k s. refl;
}

root_cause-runs_once_example :
    (s' : Log) × (sequencer logging wiring 2 rule_root_cause 6 fail (pos 0) started ≡ some s')
    × (s'.ran 6 ≡ true)
    × Performed logging wiring 6 1 fail (4 ∷ []) (logging.set_run 6 true started) s'
    × (sequencer logging wiring 2 rule_root_cause 6 pass (pos 1) s' ≡ some s')
root_cause-runs_once_example =
    root_cause-runs_once logging wiring logging-KeepsRun 6 zero fail pass (pos 0) (pos 1) started
      refl refl refl

rule_3-IsNamed : IsNamed wiring 3
unfolding has names
rule_3-IsNamed = record {
  owned = refl;
  members_owned = λ m h. ground (arith, h);
  others = refl;
  distinct = (refl, (refl, tt));
}

rule_3-StaysValid : StaysValid logging wiring 3 6 fail (λ s. Unit)
rule_3-StaysValid = record {
  rule_valid = λ s l. refl;
  instances_valid = λ k s l own. refl;
  marks = λ s l. tt;
  runs_keep = λ fuel k s s' l e. tt;
}

rule_result-runs_twice_example : sequencer logging wiring 5 rule_result 6 fail (pos 0) started ≡ (
    for_each
      (to_rule logging wiring (sequencer logging wiring 3) false fail (pos 0))
      (9 ∷ 10 ∷ 11 ∷ 10 ∷ 11 ∷ [])
      started
    >>= λ s'. some (enter (examined 6) s'))
rule_result-runs_twice_example =
    rule_result-runs_twice logging wiring 3 6 fail rule_3-IsNamed refl refl (λ s. Unit)
      rule_3-StaysValid 3 (pos 0) started tt refl refl refl refl
