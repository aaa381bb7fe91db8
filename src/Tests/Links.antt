-- ===== src/Tests/Links.antt =====
-- Linking by calls: test 1, rules 2 to 4, action 5.
use myreflection.Common.{
  ℕ, ◌*◌, ◌/◌, ◌≤◌, ◌↔◌, ◌≡◌, refl, ◌⊎◌, true, false, Option, none, some, List, [], ◌∷◌, arith, has,
  remove, if◌then◌else◌, ◌==◌, length,
}
use myreflection.Common.Int.{pos}
use myreflection.Types.{fail, ObjType, test, rule, action, initialized}
use myreflection.Sequence.Sequencer.{Wiring, rule_run, test_run, sequencer}
use myreflection.Sequence.Sequencer.Wired.{Gives}
use myreflection.Api.Linking.{
  Links, object, done, rule_create, rule_add_input, create_named, create_checked, create_unlinked,
  create_with_action, add_input_named, rule_input_search, any_input, inputs_of, unlink_inputs,
  pop_inputs, link_input, add_action, finish, head_output_rule, set_head_output_rule,
}
use myreflection.Api.Linking.Search.{Below, Deep, rule_input_search_decides}
use myreflection.Api.Linking.Chains.{Chain}
use myreflection.Api.Linking.Filed.{IsChained, Files, moved, rule_create-Files}
use myreflection.Api.Linking.Runs.{Reached, start, call, Reads, linked-Returns}
use myreflection.Api.Linking.SelfInput.{self_linked, StaysAlive, self_input-never_Returns}
use myreflection.Api.Linking.AddInput.{rule_add_input-cuts-Chain}
use myreflection.Tests.Sequences.{logging, started}

abbrev kinds : ℕ → ObjType
kinds o = if o == 1 then test else if o == 6 then test else if o == 5 then action else rule

abbrev nothing_linked : Links
nothing_linked = record {
  kind = kinds;
  state = λ o. initialized;
  inputs = λ o. [];
  test_rule = λ o. none;
  output = λ o. none;
  ref_rule = λ o. none;
  next_in_input = λ o. none;
  action_list = λ o. [];
  rule_list = λ o. [];
}

-- Rule 2 takes test 1.
abbrev one_rule : Links
one_rule = finish 2 (link_input 2 1 (add_action 2 5 nothing_linked))

one_rule_created : rule_create 0 (object 2) (object 1) (object 5) nothing_linked ≡ done one_rule
unfolding rule_create create_named create_checked create_unlinked create_with_action unlink_inputs
    pop_inputs rule_input_search any_input
one_rule_created = refl

rule_input_search_decides_example :
    (rule_input_search 2 (inputs_of one_rule) 1 2 ≡ true)
    ↔ (Below (inputs_of one_rule) 1 2 ⊎ Deep (inputs_of one_rule) 2 2)
rule_input_search_decides_example = rule_input_search_decides (inputs_of one_rule) 1 2 2

no_chains : ℕ → List ℕ
no_chains o = []

nothing_linked-IsChained : IsChained nothing_linked no_chains
unfolding no_chains head_output_rule has
nothing_linked-IsChained = record {
  threads = λ o. ground arith;
  distinct = λ o. tt;
  listed = λ o r. refl;
  single = λ r. tt;
  feeding = λ o r m. absurd (cc);
  taking = λ o r m. absurd (cc);
  created = λ r is. refl;
}

one_rule-IsChained : IsChained one_rule (moved no_chains 2 1)
unfolding rule_create create_named create_checked create_unlinked create_with_action unlink_inputs
    pop_inputs rule_input_search any_input no_chains
one_rule-IsChained =
    rule_create-Files 0 2 1 (object 5) nothing_linked no_chains nothing_linked-IsChained
      (λ o. omega arith) refl

-- Rule 3 takes the same test.
abbrev two_rules : Links
two_rules = finish 3 (link_input 3 1 (add_action 3 5 one_rule))

length-one : (o : ℕ) → length (moved no_chains 2 1 o) ≤ 1
unfolding moved no_chains remove
length-one o = ground arith

rule_create-Files_example :
    Files 3 1 one_rule
      (moved no_chains 2 1)
      (rule_create 1 (object 3) (object 1) (object 5) one_rule)
unfolding finish link_input add_action set_head_output_rule
rule_create-Files_example =
    rule_create-Files 1 3 1 (object 5) one_rule (moved no_chains 2 1) one_rule-IsChained length-one
      refl

two_rules-IsChained : IsChained two_rules (moved (moved no_chains 2 1) 3 1)
unfolding rule_create create_named create_checked create_unlinked create_with_action unlink_inputs
    pop_inputs rule_input_search any_input finish link_input add_action set_head_output_rule
    head_output_rule
two_rules-IsChained =
    rule_create-Files 1 3 1 (object 5) one_rule (moved no_chains 2 1) one_rule-IsChained length-one
      refl

two_rules_chain : moved (moved no_chains 2 1) 3 1 1 ≡ 3 ∷ 2 ∷ []
unfolding moved no_chains remove
two_rules_chain = refl

second_input : rule_add_input (object 3) (object 6) two_rules ≡ done (link_input 3 6 two_rules)
unfolding rule_add_input add_input_named rule_input_search any_input finish link_input add_action
    set_head_output_rule head_output_rule has
second_input = refl

rule_add_input-cuts-Chain_example :
    Chain
      (link_input 3 6 two_rules).next_in_input
      (head_output_rule (link_input 3 6 two_rules) 1)
      (3 ∷ moved (moved no_chains 2 1) 3 1 6)
    × ((q : ℕ) → has q (2 ∷ []) ≡ true → has 1 ((link_input 3 6 two_rules).inputs q) ≡ true)
rule_add_input-cuts-Chain_example =
    rule_add_input-cuts-Chain 3 6 1 [] (2 ∷ []) two_rules (link_input 3 6 two_rules)
      (moved (moved no_chains 2 1) 3 1) two_rules-IsChained (omega arith) two_rules_chain
      second_input

abbrev wired_to : (ℕ → Option ℕ) → Wiring
wired_to out = record {
  kind = kinds;
  base = λ o. 3 * o;
  members = λ o. [];
  owner = λ i. i / 3;
  name = λ i. i;
  is_polled = λ o. true;
  is_autopass = λ o. false;
  has_function = λ o. true;
  first_rule = λ o. if o == 1 then some 2 else none;
  behind = λ r. [];
  output = out;
  action_list = λ r. if r == 2 then 5 ∷ [] else [];
  rule_list = λ a. [];
  is_silent = λ o. false;
  is_built_in = λ o. false;
}

one_rule-Reached : Reached kinds 1 one_rule
unfolding head_output_rule
one_rule-Reached =
    call (start nothing_linked (refl, λ o. refl, λ o. ground arith, λ o. refl)) 0 2 1 (object 5)
      (omega arith) refl (omega arith) one_rule_created

one_rule-Reads : Reads (wired_to (λ r. none)) one_rule
unfolding finish link_input add_action set_head_output_rule head_output_rule has
one_rule-Reads = record {
  output = λ r. ground arith;
  behind = λ r. ground arith;
  owned = λ o. omega arith;
  members_owned = λ o m h. absurd (cc);
}

linked-Returns_example :
    Gives (sequencer logging (wired_to (λ r. none)) 6 test_run 3 fail (pos 0) started)
linked-Returns_example =
    linked-Returns kinds 1 one_rule logging (wired_to (λ r. none)) one_rule-Reached one_rule-Reads 6
      test_run 3 fail (pos 0) started (omega arith)

-- The rule of an engine in which nothing is deleted and rules fail.
always_alive : StaysAlive logging (wired_to (λ r. if r == 2 then some 2 else none)) 2 (λ s. Unit)
always_alive = record {
  instance_valid = λ s l. refl;
  rule_valid = λ s l. refl;
  evaluates = λ q v s l ne. ((λ e. cc), tt);
  marks = λ b s l. tt;
}

self_input-never_Returns_example :
    (rule_create 0 (object 2) (object 2) (object 5) nothing_linked
      ≡ done (self_linked 2 5 nothing_linked))
    × (sequencer logging
          (wired_to (λ r. if r == 2 then some 2 else none))
          1000
          rule_run
          6
          fail
          (pos 0)
          started
        ≡ none)
unfolding finish link_input add_action set_head_output_rule head_output_rule
self_input-never_Returns_example =
    self_input-never_Returns 0 2 5 nothing_linked logging
      (wired_to (λ r. if r == 2 then some 2 else none)) (λ s. Unit) refl refl refl always_alive refl
      refl refl 1000 fail (pos 0) started tt (λ e. cc)
