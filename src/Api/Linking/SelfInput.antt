-- ===== src/Api/Linking/SelfInput.antt =====
-- A rule given itself as its input: `rule_input_search` (src/myrefl_api.c) compares the target with
-- the inputs of its object, and not with the object.
use myreflection.Common.{
  ℕ, zero, suc, ◌≡◌, refl, ◌≢◌, ◌∙◌, ap, Bool, true, false, ◌&&◌, if◌then◌else◌, if-holds, Option,
  some, none, List, [], ◌∷◌, arith,
}
use myreflection.Common.Int.{ℤ, pos}
use myreflection.Types.{Result, abort, is_pass, any, rule}
use myreflection.Api.Linking.{
  Links, any_input, rule_input_search, unlink_inputs, pop_inputs, object, done, create_with_action,
  create_unlinked, create_checked, create_named, rule_create, link_input, add_action,
  set_head_output_rule, finish,
}
use myreflection.Sequence.Sequencer.{
  Wiring, Engine, rule_run, rule_process_input, Self, obj_instance, instances_for, for_each,
  to_rule, to_rules, on_process_input, to_output, on_rule_result, on_rule_run, on_event, sequencer,
}

-- The links after a new rule has got itself as its input.
abbrev pub self_linked : (rule action : ℕ) → Links → Links
self_linked r a l = finish r (link_input r r (add_action r a l))

-- The call for a new rule is completed, and makes the rule its own output.
self_input_lem :
    (fuel r a : ℕ) (l : Links)
    → l.kind r ≡ rule
    → l.inputs r ≡ []
    → l.ref_rule r ≡ none
    → (rule_create fuel (object r) (object r) (object a) l ≡ done (self_linked r a l))
      × ((self_linked r a l).output r ≡ some r)
      × ((self_linked r a l).kind r ≡ rule)
unfolding rule_create create_named create_checked create_unlinked create_with_action unlink_inputs
    pop_inputs link_input add_action finish set_head_output_rule rule_input_search any_input
self_input_lem fuel r a l is none_yet fresh =
    (ground (arith, is, none_yet), ground (arith, is, fresh), ground (arith, is))

-- States of the engine in which the rule and its base instance are valid, and in which they stay so
-- when the rule is evaluated on a result that is no abort, which does not abort, and when its
-- action_run is set.
pub record StaysAlive {S : Type 0} (e : Engine S) (w : Wiring) (r : ℕ) (alive : S → Type 0)
    : Type 0 where
  pub instance_valid : (s : S) → alive s → e.instance_validate (w.base r) any s ≡ true
  pub rule_valid : (s : S) → alive s → e.validate r rule s ≡ true
  pub evaluates :
      (q : Result) (v : ℤ) (s : S)
      → alive s
      → q ≢ abort
      → ((e.run_rule (w.base r) q v s).0 ≢ abort) × alive (e.run_rule (w.base r) q v s).1
  pub marks : (b : Bool) (s : S) → alive s → alive (e.set_run (w.base r) b s)

module _ {S : Type 0} (e : Engine S) (w : Wiring) (r : ℕ) (alive : S → Type 0)
    (stays : StaysAlive e w r alive) (kind : w.kind r ≡ rule) (owned : w.owner (w.base r) ≡ r)
    (output : w.output r ≡ some r) where
  own_instances : instances_for w r (w.base r) ≡ w.base r ∷ w.members r
  unfolding instances_for obj_instance
  own_instances = ground (arith, owned, ap w.base owned)

  -- The event does not return at this depth.
  abbrev Stops : (Result → ℤ → S → Option S) → Type 0
  Stops f = (q : Result) (v : ℤ) (s : S) → alive s → q ≢ abort → f q v s ≡ none

  -- Runs of the rule, and of its input, that do not return at this depth.
  Stuck : ℕ → Type 0
  Stuck fuel =
      Stops (sequencer e w fuel rule_run (w.base r))
      × Stops (sequencer e w fuel rule_process_input (w.base r))

  stops :
      (f : ℕ → S → Option S) (x : ℕ) (xs : List ℕ) (s : S)
      → f x s ≡ none
      → for_each f (x ∷ xs) s ≡ none
  unfolding for_each
  stops f x xs s h = rw h refl

  stops_for_own :
      (f : ℕ → S → Option S) (s : S)
      → f (w.base r) s ≡ none
      → for_each f (instances_for w r (w.base r)) s ≡ none
  stops_for_own f s h = rw own_instances (stops f (w.base r) (w.members r) s h)

  -- A run that does not return, for every result but an abort.
  to_rule-stuck :
      (self : Self S) (q : Result) (v : ℤ) (s : S)
      → q ≢ abort
      → self rule_run (w.base r) q v s ≡ none
      → to_rule e w self false q v (w.base r) s ≡ none
  unfolding to_rule
  to_rule-stuck self Result.abort v s ne run = absurd (ne refl)
  to_rule-stuck self q v s ne run = run

  input-stuck :
      (self : Self S) (q : Result) (v : ℤ) (s : S)
      → q ≢ abort
      → self rule_run (w.base r) q v s ≡ none
      → on_process_input e w self (w.base r) q v s ≡ none
  unfolding on_process_input to_rules
  input-stuck self q v s ne run =
      let own = stops_for_own (to_rule e w self false q v) s (to_rule-stuck self q v s ne run) in
      rw owned (rw kind (stops _ r (w.behind r) s own))

  run-stuck :
      (self : Self S) (q : Result) (v : ℤ) (s : S)
      → alive s
      → q ≢ abort
      → Stops (self rule_process_input (w.base r))
      → on_rule_run e w self (w.base r) q v s ≡ none
  unfolding on_rule_run on_rule_result to_output
  run-stuck self q v s live ne input =
      let (q', s') = e.run_rule (w.base r) q v s in
      let (no_abort, live') = stays.evaluates q v s live ne in
      let s1 =
        if is_pass q' && e.has_run (w.base r) s' then e.set_run (w.base r) false s' else s' in
      let live1 =
        if-holds alive (is_pass q' && e.has_run (w.base r) s') (e.set_run (w.base r) false s') s'
          (stays.marks false s' live') live' in
      rw owned (
        rw (kind, output)
          (rw (stays.rule_valid s1 live1)
            (rw (stops_for_own _ _ (input q' (pos 0) s1 live1 no_abort)) refl)))

  never_returns : (fuel : ℕ) → Stuck fuel
  unfolding Stuck sequencer on_event
  never_returns zero = (λ q v s live ne. refl, λ q v s live ne. refl)
  never_returns (suc fuel) =
      let (run, input) = never_returns fuel in
      (
        λ q v s live ne.
            rw (stays.instance_valid s live) (run-stuck (sequencer e w fuel) q v s live ne input),
        λ q v s live ne.
            rw (stays.instance_valid s live)
              (input-stuck (sequencer e w fuel) q v s ne (run q v s live ne)),
      )

-- Where a new rule is created with itself as its input, the call is completed. On the links that it
-- makes, and from a state in which the rule and its base instance are valid and stay so while the
-- rule is evaluated, the sequencer returns at no depth from a run of the base instance on a result
-- that is no abort: it calls itself for ever.
pub self_input-never_Returns :
    {S : Type 0} (fuel r a : ℕ) (l : Links) (e : Engine S) (w : Wiring) (alive : S → Type 0)
    → l.kind r ≡ rule
    → l.inputs r ≡ []
    → l.ref_rule r ≡ none
    → StaysAlive e w r alive
    → w.kind r ≡ (self_linked r a l).kind r
    → w.output r ≡ (self_linked r a l).output r
    → w.owner (w.base r) ≡ r
    → (depth : ℕ) (q : Result) (v : ℤ) (s : S) → alive s
    → q ≢ abort
    → (rule_create fuel (object r) (object r) (object a) l ≡ done (self_linked r a l))
      × (sequencer e w depth rule_run (w.base r) q v s ≡ none)
unfolding Stuck
self_input-never_Returns fuel r a l e w alive is none_yet fresh stays k o owned depth q v s live
      ne =
    let (made, output, is') = self_input_lem fuel r a l is none_yet fresh in
    (made, (never_returns e w r alive stays (k ∙ is') owned (o ∙ output) depth).0 q v s live ne)
