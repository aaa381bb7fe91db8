-- ===== src/Tests/Instances.antt =====
-- Settings, states and chains of a test with one rule.
use myreflection.Common.{
  ℕ, ◌≡◌, refl, true, false, none, some, List, [], ◌∷◌, arith, if◌then◌else◌, ◌==◌, update, has,
}
use myreflection.Common.Int.{pos}
use myreflection.Types.{fail, test, rule, action, ObjState, enabled, disabled, created, initialized}
use myreflection.Sequence.Rule.{n_in_m, on_fail, Memory, Counters, evaluate, after}
use myreflection.Sequence.Rule.Counting.{newest_fail}
use myreflection.Api.Linking.{Links}
use myreflection.Api.Operands.{
  Settings, settings, takes_operands, set_type_of, rule_set_type, rule_of,
}
use myreflection.Api.Operands.Accepted.{Uniform, accepted_n_in_m-Uniform}
use myreflection.Api.States.{
  Instance, Object, whole, by_name, instances, kept, deleting, calls_of, if_enabled, enable,
  disable, each, switch_states, for_whole, find_member,
}
use myreflection.Api.States.Guts.{
  test_enable_guts, test_disable_guts, test_default, action_enable_guts, action_disable_guts,
  action_default, rule_enable_guts, rule_disable_guts, rule_default,
}
use myreflection.Api.States.Overrides.{AllAgree}
use myreflection.Api.States.Calls.{
  test_enabling, test_disabling, apply, apply_ops, apply_ops-AllAgree,
}
use myreflection.Api.States.Restored.{cli_requests, default-undoes_cli, default_forward-deletes}
use myreflection.Api.Chaining.{Store, wanted, ready_calls, test_chain_ready}
use myreflection.Api.Chaining.Settled.{IsOrdered, IsSane}
use myreflection.Api.Chaining.Ready.{ChainSettled, test_chain_ready-ChainSettled}

abbrev plain : ℕ → Settings
plain r = settings on_fail (pos 0) (pos 0)

abbrev granted : Memory
granted = record { table = true; data_block = true; bits = true }

abbrev clear : Counters
clear = record { fail_count = 0; rule_data = none }

abbrev two_in_three : ℕ → Settings
two_in_three = update plain 2 (settings n_in_m (pos 2) (pos 3))

accepted_n_in_m-Uniform_example :
    (evaluate granted
      (rule_of (two_in_three 2))
      []
      fail
      (pos 0)
      (after granted (rule_of (two_in_three 2)) [] clear ((fail, pos 0) ∷ (fail, pos 0) ∷ []))).0
    ≡ fail
unfolding rule_set_type set_type_of takes_operands Uniform newest_fail
accepted_n_in_m-Uniform_example =
    accepted_n_in_m-Uniform granted [] 2 2 3 plain two_in_three clear
      ((fail, pos 0) ∷ (fail, pos 0) ∷ []) fail (pos 0) true refl refl refl refl refl (tt, (tt, tt))
      tt refl

abbrev instance_in : (ident : ℕ) → ObjState → Instance
instance_in a s = record {
  ident = a;
  name = a;
  state = s;
  default_state = s;
  cli_state = initialized;
}

abbrev object_in : ObjState → List Instance → Object
object_in s ms = record {
  is_polled = true;
  base = instance_in 1 s;
  members = ms;
  period = 100;
  default_period = 100;
  rule_settings = plain 1;
}

abbrev running_test : Object
running_test = object_in enabled (instance_in 11 disabled ∷ [])

-- The CLI disables the test, and the application enables it.
abbrev overridden : Object
overridden = record running_test {
  base = record (instance_in 1 disabled) { default_state = enabled; cli_state = disabled };
  members = record (instance_in 11 disabled) { default_state = enabled; cli_state = disabled } ∷ [];
}

apply_ops-AllAgree_example : AllAgree (instances overridden)
unfolding apply_ops apply test_enable_guts test_disable_guts switch_states for_whole enable disable
    each
apply_ops-AllAgree_example =
    apply_ops-AllAgree (test_disabling true none whole ∷ test_enabling false none whole ∷ [])
      running_test overridden ((refl, refl), ((refl, refl), tt)) refl

default-undoes_cli_example :
    (test_default whole (
        cli_requests
          (λ x. (test_enable_guts true none whole x).0)
          (λ x. (test_disable_guts true none whole x).0)
          (false ∷ true ∷ [])
          running_test)
      ≡ kept running_test (calls_of (if_enabled true) (instances running_test)))
    × (action_default whole (
          cli_requests
            (action_enable_guts true none whole)
            (action_disable_guts true none whole)
            (false ∷ true ∷ [])
            running_test)
        ≡ kept running_test [])
    × (rule_default whole (
          cli_requests
            (rule_enable_guts true none whole)
            (rule_disable_guts true none whole)
            (false ∷ true ∷ [])
            running_test)
        ≡ kept running_test [])
default-undoes_cli_example =
    default-undoes_cli none (false ∷ true ∷ []) running_test
      ((refl, refl, refl), ((refl, refl, refl), tt)) refl refl

abbrev created_test : Object
created_test = object_in created []

default_forward-deletes_example :
    test_default (by_name 7) (test_enable_guts true (some 20) (by_name 7) created_test).0 ≡ deleting
unfolding find_member
default_forward-deletes_example = default_forward-deletes 20 7 created_test refl refl refl

-- Test 1 leads to rule 2, which has action 5.
abbrev links : Links
links = record {
  kind = λ o. if o == 1 then test else if o == 5 then action else rule;
  state = λ o. created;
  inputs = λ o. if o == 2 then 1 ∷ [] else [];
  test_rule = λ o. if o == 1 then some 2 else none;
  output = λ o. none;
  ref_rule = λ o. none;
  next_in_input = λ o. none;
  action_list = λ o. if o == 2 then 5 ∷ [] else [];
  rule_list = λ o. if o == 5 then 2 ∷ [] else [];
}

abbrev height : ℕ → ℕ
height o = if o == 1 then 2 else if o == 2 then 1 else 0

links-IsOrdered : IsOrdered links height
unfolding has
links-IsOrdered = record {
  test_rule = λ o r k e. ground (arith, k, e);
  next = λ o r k e. absurd (cc);
  output = λ o r k e. absurd (cc);
  actions = λ o a k m. ground (arith, k, m);
}

abbrev all_created : Store
all_created o = record created_test {
  base = record (instance_in 1 created) { default_state = initialized };
}

all_created-IsSane : IsSane (λ o. true) (λ o. true) all_created
all_created-IsSane = record {
  same = λ o. refl;
  cli = λ o e. absurd (cc);
  default = λ o e. absurd (cc);
}

test_chain_ready-ChainSettled_example :
    (st' : Store) × (test_chain_ready 3 links (λ o. true) enabled (λ o. none) (some 1) all_created
      ≡ some (st', ready_calls (st' 1)))
    × ChainSettled links (λ o. true) enabled 1 all_created st'
unfolding wanted
test_chain_ready-ChainSettled_example =
    test_chain_ready-ChainSettled links (λ o. true) (λ o. true) enabled (λ o. none) height 3 1
      all_created refl refl refl (λ e. cc) (λ e. cc) links-IsOrdered all_created-IsSane
      (omega arith)
