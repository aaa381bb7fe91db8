-- ===== src/Sequence/Sequencer/Returns.antt =====
-- `seq_sequencer` (src/myrefl_sequence.c) returns where the rules' outputs form no cycle.
use myreflection.Common.{
  ℕ, zero, suc, ◌+◌, ◌-◌, ◌≤◌, ◌<◌, ◌≡◌, refl, ap, subst, true, false, Bool, not, ◌&&◌, ◌||◌,
  Option, none, some, ◌∷◌, arith, has, if◌then◌else◌, ◌>>=◌,
}
use myreflection.Common.Int.{ℤ, pos}
use myreflection.Types.{
  Result, in_progress, ignore, is_pass, any, test, action, same_result, is_test,
}
use myreflection.Sequence.Sequencer.{
  Event, test_run, test_result, test_result_rci, rule_process_input, rule_run, rule_run_rci,
  rule_result, rci_run, rule_root_cause, action_run, action_result, Wiring, Engine, instances_for,
  Self, to_rules, chain_of, on_test_result, on_test_run, on_process_input, to_output,
  on_rule_result, on_rule_run, to_action, on_root_cause, on_action_result, on_action_run, on_event,
  sequencer, seq_test_run, seq_action_run,
}
use myreflection.Sequence.Sequencer.Wired.{
  IsWired, Gives, if-Gives, for_each-Gives, instances_for-owner, RulesReturn, to_rules-Gives,
}

module _ {S : Type 0} (e : Engine S) (w : Wiring) (height : ℕ → ℕ) (top : ℕ)
    (wired : IsWired w height top) where
  on_process_input-Gives :
      (self : Self S) (h i : ℕ) (r : Result) (v : ℤ) (s : S)
      → RulesReturn e w height top wired self h
      → ((q : ℕ) → has q (w.owner i ∷ w.behind (w.owner i)) ≡ true → height q ≤ h)
      → Gives (on_process_input e w self i r v s)
  unfolding on_process_input
  on_process_input-Gives self h i r v s calls low =
      if-Gives _ _ _
        (to_rules-Gives e w height top wired self h false r v i (w.owner i ∷ w.behind (w.owner i)) s
          calls low)
        (s, refl)

  -- The sequencer's calls for inputs of a rule return.
  abbrev InputsReturn : Self S → ℕ → Type 0
  InputsReturn self o =
      (k : ℕ) (r : Result) (v : ℤ) (s : S) → w.owner k ≡ o → Gives (self rule_process_input k r v s)

  to_output-Gives :
      (self : Self S) (o : Option ℕ) (i : ℕ) (r : Result) (s : S)
      → ((q : ℕ) → o ≡ some q → InputsReturn self q)
      → Gives (to_output e w self o i r s)
  unfolding to_output
  to_output-Gives self none i r s inputs = (s, refl)
  to_output-Gives self (some o) i r s inputs =
      if-Gives _ _ _
        (for_each-Gives _ (instances_for w o i) s (λ k s' m.
          inputs o refl k r (pos 0) s' (instances_for-owner e w height top wired o i k m)))
        (s, refl)

  on_rule_result-Gives :
      (self : Self S) (i : ℕ) (r : Result) (s : S)
      → ((q : ℕ) → w.output (w.owner i) ≡ some q → InputsReturn self q)
      → Gives (on_rule_result e w self i r s)
  unfolding on_rule_result
  on_rule_result-Gives self i r s inputs =
      let s1 = if is_pass r && e.has_run i s then e.set_run i false s else s in
      let (s2, done) = to_output-Gives self (w.output (w.owner i)) i r s1 inputs in
      if-Gives _ _ _ (e.run_rci i r s2, ap (λ o. o >>= λ s3. some (e.run_rci i r s3)) done)
        (s, refl)

  process_input-Gives :
      (fuel h k : ℕ) (r : Result) (v : ℤ) (s : S)
      → RulesReturn e w height top wired (sequencer e w fuel) h
      → ((q : ℕ) → has q (w.owner k ∷ w.behind (w.owner k)) ≡ true → height q ≤ h)
      → Gives (sequencer e w (suc fuel) rule_process_input k r v s)
  unfolding sequencer on_event
  process_input-Gives fuel h k r v s calls low =
      if-Gives _ _ _ (on_process_input-Gives (sequencer e w fuel) h k r v s calls low) (s, refl)

  rule-Gives :
      (fuel i : ℕ) (rci : Bool) (r : Result) (v : ℤ) (s : S)
      → ((q : ℕ) → w.output (w.owner i) ≡ some q → InputsReturn (sequencer e w fuel) q)
      → Gives (sequencer e w (suc fuel) (if rci then rule_run_rci else rule_run) i r v s)
  unfolding sequencer on_event on_rule_run
  rule-Gives fuel i true r v s inputs =
      if-Gives _ _ _ (on_rule_result-Gives (sequencer e w fuel) i (e.last_result i s) s inputs)
        (s, refl)
  rule-Gives fuel i false r v s inputs =
      let (r', s') = e.run_rule i r v s in
      if-Gives _ _ _ (on_rule_result-Gives (sequencer e w fuel) i r' s' inputs) (s, refl)

  -- What a rule feeds returns if rules of less height do.
  fed-Return :
      (g h i q : ℕ)
      → ((h - 1) + (h - 1) < g → RulesReturn e w height top wired (sequencer e w g) (h - 1))
      → h + h < suc (suc g)
      → height (w.owner i) ≤ h
      → w.output (w.owner i) ≡ some q
      → InputsReturn (sequencer e w (suc g)) q
  unfolding has
  fed-Return g h i q calls k le out x r v s own =
      let below = wired.lower (w.owner i) q q out (ground arith) in
      process_input-Gives g (h - 1) x r v s (calls (omega (arith, k, le, below))) (λ p m.
        let lower =
          wired.lower (w.owner i) q p out (subst (λ y. has p (y ∷ w.behind y) ≡ true) own m) in
        omega (arith, le, lower))

  rules-Return :
      (fuel h : ℕ) → h + h < fuel → RulesReturn e w height top wired (sequencer e w fuel) h
  unfolding has
  rules-Return zero h k i rci r v s le = absurd (omega (arith, k))
  rules-Return (suc zero) h k i rci r v s le =
      rule-Gives zero i rci r v s
        (λ q out. absurd (omega (arith, k, le, wired.lower (w.owner i) q q out (ground arith))))
  rules-Return (suc (suc g)) h k i rci r v s le =
      rule-Gives (suc g) i rci r v s (λ q. fed-Return g h i q (rules-Return g (h - 1)) k le)

  on_result-Gives :
      (fuel i : ℕ) (r : Result) (s : S)
      → top + top < suc fuel
      → Gives (on_rule_result e w (sequencer e w (suc fuel)) i r s)
  on_result-Gives fuel i r s k = on_rule_result-Gives (sequencer e w (suc fuel)) i r s (λ q.
      fed-Return fuel top i q (rules-Return fuel (top - 1)) (omega (arith, k))
        (wired.bounded (w.owner i)))

  on_test_result-Gives :
      (self : Self S) (rci : Bool) (i : ℕ) (r : Result) (v : ℤ) (s : S)
      → RulesReturn e w height top wired self top
      → Gives (on_test_result e w self rci i r v s)
  unfolding on_test_result
  on_test_result-Gives self rci i r v s calls =
      let t = w.owner i in
      let s1 = if rci then s else e.stats_update i r v s in
      let s2 = if w.is_polled t || w.is_autopass t then e.add_test i s1 else s1 in
      let ignored = if w.is_polled t then e.add_test i s else s in
      let run = to_rules e w self rci r v i (chain_of e w (w.first_rule t)) s2 in
      if-Gives (not (is_test (w.kind t))) (some s)
        (if same_result r ignore then some ignored else run) (s, refl)
        (if-Gives (same_result r ignore) (some ignored) run (ignored, refl)
          (to_rules-Gives e w height top wired self top rci r v i (chain_of e w (w.first_rule t)) s2
            calls (λ q m. wired.bounded q)))

  on_test_run-Gives :
      (self : Self S) (i : ℕ) (v : ℤ) (s : S)
      → RulesReturn e w height top wired self top
      → Gives (on_test_run e w self i v s)
  unfolding on_test_run
  on_test_run-Gives self i v s calls =
      let (r, v', s') = seq_test_run e w i v s in
      let run = on_test_result e w self false i r v' (e.set_last_time i s') in
      let later = if same_result r in_progress then some s' else run in
      if-Gives (not (is_test (w.kind (w.owner i)))) (some s)
        (if not (e.instance_validate i test s') then some s' else later) (s, refl)
        (if-Gives (not (e.instance_validate i test s')) (some s') later (s', refl)
          (if-Gives (same_result r in_progress) (some s') run (s', refl)
            (on_test_result-Gives self false i r v' (e.set_last_time i s') calls)))

  on_action_result-Gives : (i : ℕ) (r : Result) (s : S) → Gives (on_action_result e w i r s)
  unfolding on_action_result
  on_action_result-Gives i r s =
      if-Gives _ _ _ (for_each-Gives _ (w.rule_list (w.owner i)) s (λ q s' m. (_, refl))) (s, refl)

  on_action_run-Gives : (i : ℕ) (s : S) → Gives (on_action_run e w i s)
  unfolding on_action_run
  on_action_run-Gives i s =
      let (r, s') = seq_action_run e w i s in
      let run = on_action_result e w i r s' in
      let later = if same_result r in_progress then some s' else run in
      if-Gives (not (e.validate (w.owner i) action s') || e.is_deleted i s') (some s') later
        (s', refl)
        (if-Gives (same_result r in_progress) (some s') run (s', refl)
          (on_action_result-Gives i r s'))

  action-Gives :
      (fuel i : ℕ) (r : Result) (v : ℤ) (s : S)
      → Gives (sequencer e w (suc fuel) action_run i r v s)
  unfolding sequencer on_event
  action-Gives fuel i r v s = if-Gives _ _ _ (on_action_run-Gives i s) (s, refl)

  on_root_cause-Gives :
      (fuel i : ℕ) (r : Result) (s : S) → Gives (on_root_cause e w (sequencer e w (suc fuel)) i r s)
  unfolding on_root_cause to_action
  on_root_cause-Gives fuel i r s =
      if-Gives _ _ _ (s, refl)
        (if-Gives _ _ _ (s, refl)
          (for_each-Gives _ (w.action_list (w.owner i)) (e.set_run i true s)
            (λ a s' m. action-Gives fuel _ r (pos 0) _)))

  on_event-Gives :
      (fuel : ℕ) (event : Event) (i : ℕ) (r : Result) (v : ℤ) (s : S)
      → top + top < suc fuel
      → Gives (on_event e w (sequencer e w (suc fuel)) event i r v s)
  unfolding on_event on_rule_run
  on_event-Gives fuel test_run i r v s k = on_test_run-Gives _ i v s (rules-Return (suc fuel) top k)
  on_event-Gives fuel test_result i r v s k =
      on_test_result-Gives _ false i r v (e.set_last_time i s) (rules-Return (suc fuel) top k)
  on_event-Gives fuel test_result_rci i r v s k =
      on_test_result-Gives _ true i r v s (rules-Return (suc fuel) top k)
  on_event-Gives fuel rule_process_input i r v s k =
      on_process_input-Gives _ top i r v s (rules-Return (suc fuel) top k) (λ q m. wired.bounded q)
  on_event-Gives fuel rule_run i r v s k =
      let (r', s') = e.run_rule i r v s in on_result-Gives fuel i r' s' k
  on_event-Gives fuel rule_run_rci i r v s k = on_result-Gives fuel i (e.last_result i s) s k
  on_event-Gives fuel rule_result i r v s k = on_result-Gives fuel i r s k
  on_event-Gives fuel rci_run i r v s k = (_, refl)
  on_event-Gives fuel rule_root_cause i r v s k = on_root_cause-Gives fuel i r s
  on_event-Gives fuel action_run i r v s k = on_action_run-Gives i s
  on_event-Gives fuel action_result i r v s k = on_action_result-Gives i r s

  -- Where each rule stands higher than all rules that it feeds, and none higher than `top`,
  -- seq_sequencer returns for every event, instance, result and state, whatever its engine does, in a
  -- depth of more than twice `top` and one calls.
  pub sequencer-Returns :
      (fuel : ℕ) (event : Event) (i : ℕ) (r : Result) (v : ℤ) (s : S)
      → top + top + 1 < fuel
      → Gives (sequencer e w fuel event i r v s)
  unfolding sequencer
  sequencer-Returns zero event i r v s k = absurd (omega (arith, k))
  sequencer-Returns (suc zero) event i r v s k = absurd (omega (arith, k))
  sequencer-Returns (suc (suc fuel)) event i r v s k =
      if-Gives (e.instance_validate i any s) (on_event e w (sequencer e w (suc fuel)) event i r v s)
        (some s) (on_event-Gives fuel event i r v s (omega (arith, k))) (s, refl)
