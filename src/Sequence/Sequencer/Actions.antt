-- ===== src/Sequence/Sequencer/Actions.antt =====
-- The actions of a root cause in `seq_sequencer` (src/myrefl_sequence.c).
use myreflection.Common.{
  ℕ, suc, ◌≡◌, refl, ◌∙◌, inl, inr, true, Bool, not, ◌&&◌, ◌||◌, Option, some, List, [], ◌∷◌,
  if◌then◌else◌, Bool-cases, if-holds, Option-cases, some_injective, false,
}
use myreflection.Common.Int.{ℤ, pos}
use myreflection.Types.{
  Result, abort, in_progress, is_pass, same_result, any, action, is_rule, is_action,
}
use myreflection.Sequence.Sequencer.{
  rule_root_cause, action_run, Wiring, Engine, obj_instance, for_each, Self, seq_action_run,
  to_action, on_root_cause, on_action_result, on_action_run, on_event, sequencer,
}

-- The engine's other operations leave the action_run of an instance alone.
pub record KeepsRun {S : Type 0} (e : Engine S) : Type 0 where
  pub has_run-set_run : (i : ℕ) (b : Bool) (s : S) → e.has_run i (e.set_run i b s) ≡ b
  pub has_run-hold : (i k : ℕ) (s : S) → e.has_run i (e.hold k s) ≡ e.has_run i s
  pub has_run-release : (i k : ℕ) (s : S) → e.has_run i (e.release k s) ≡ e.has_run i s
  pub has_run-call_action : (i k : ℕ) (s : S) → e.has_run i (e.call_action k s).1 ≡ e.has_run i s
  pub has_run-stats_update :
      (i k : ℕ) (r : Result) (v : ℤ) (s : S) → e.has_run i (e.stats_update k r v s) ≡ e.has_run i s
  pub has_run-recovery :
      (i k a : ℕ) (s : S) → e.has_run i (e.recovery_in_progress k a s) ≡ e.has_run i s
  pub has_run-immediate : (i k : ℕ) (s : S) → e.has_run i (e.rule_immediate k s) ≡ e.has_run i s

module _ {S : Type 0} (e : Engine S) (w : Wiring) (i : ℕ) where
  -- The instance of an action that matches the rule's, and the state in which it is run: unless the
  -- action is silent, the client has been told of the recovery.
  abbrev pub action_of : ℕ → ℕ
  action_of a = obj_instance w a i

  abbrev pub announced : ℕ → S → S
  announced a s =
      if w.is_silent (w.owner (action_of a)) then s else e.recovery_in_progress i (action_of a) s

  -- SEQ_ACTION_RUN is handled for each of these actions, in their order.
  unfoldable pub Performed : (fuel : ℕ) → Result → List ℕ → S → S → Type 0
  Performed fuel r [] s s' = s ≡ s'
  Performed fuel r (a ∷ as') s s' =
      (s1 : S) × (sequencer e w fuel action_run (action_of a) r (pos 0) (announced a s) ≡ some s1)
      × Performed fuel r as' s1 s'

module _ {S : Type 0} (e : Engine S) (w : Wiring) (keeps : KeepsRun e) (i : ℕ) where
  -- It gives a state in which the instance's actions have run.
  abbrev pub HasRun : Option S → Type 0
  HasRun o = (s : S) × (o ≡ some s) × (e.has_run i s ≡ true)

  for_each-HasRun :
      (f : ℕ → S → Option S) (xs : List ℕ) (s : S)
      → e.has_run i s ≡ true
      → ((x : ℕ) (s' : S) → e.has_run i s' ≡ true → HasRun (f x s'))
      → HasRun (for_each f xs s)
  unfolding for_each
  for_each-HasRun f [] s h each = (s, refl, h)
  for_each-HasRun f (x ∷ xs) s h each =
      let (s1, done, h1) = each x s h in rw done (for_each-HasRun f xs s1 h1 each)

  seq_action_run-has_run :
      (k : ℕ) (s : S) → e.has_run i s ≡ true → e.has_run i (seq_action_run e w k s).1 ≡ true
  unfolding seq_action_run
  seq_action_run-has_run k s h =
      let s1 = (e.call_action k (e.hold k s)).1 in
      let r = (e.call_action k (e.hold k s)).0 in
      let called : e.has_run i (e.stats_update k r (pos 0) (e.release k s1)) ≡ true =
        keeps.has_run-stats_update i k r (pos 0) (e.release k s1)
        ∙ keeps.has_run-release i k s1
        ∙ keeps.has_run-call_action i k (e.hold k s)
        ∙ keeps.has_run-hold i k s
        ∙ h in
      let uncalled = keeps.has_run-stats_update i k abort (pos 0) s ∙ h in
      if-holds (λ (p : Result × S). e.has_run i p.1 ≡ true) (not (e.instance_validate k action s))
        (abort, s)
        (if w.has_function (w.owner k)
          then (r, e.stats_update k r (pos 0) (e.release k s1))
          else (abort, e.stats_update k abort (pos 0) s))
        h
        (if-holds (λ (p : Result × S). e.has_run i p.1 ≡ true) (w.has_function (w.owner k))
          (r, e.stats_update k r (pos 0) (e.release k s1)) (abort, e.stats_update k abort (pos 0) s)
          called uncalled)

  on_action_result-HasRun :
      (k : ℕ) (r : Result) (s : S) → e.has_run i s ≡ true → HasRun (on_action_result e w k r s)
  unfolding on_action_result
  on_action_result-HasRun k r s h =
      let f = λ (q : ℕ) (s' : S). some (e.rule_immediate (obj_instance w q k) s') in
      if-holds HasRun
        (is_action (w.kind (w.owner k)) && (is_pass r && not (w.is_built_in (w.owner k))))
        (for_each f (w.rule_list (w.owner k)) s) (some s)
        (for_each-HasRun f (w.rule_list (w.owner k)) s h (λ q s' h'.
          (e.rule_immediate (obj_instance w q k) s', refl, keeps.has_run-immediate i _ s' ∙ h')))
        (s, refl, h)

  action-HasRun :
      (fuel k : ℕ) (r : Result) (v : ℤ) (s : S)
      → e.has_run i s ≡ true
      → HasRun (sequencer e w (suc fuel) action_run k r v s)
  unfolding sequencer on_event on_action_run
  action-HasRun fuel k r v s h =
      let (r', s') = seq_action_run e w k s in
      let h' = seq_action_run-has_run k s h in
      let run = on_action_result e w k r' s' in
      let later = if same_result r' in_progress then some s' else run in
      if-holds HasRun (e.instance_validate k any s)
        (if not (e.validate (w.owner k) action s') || e.is_deleted k s' then some s' else later)
        (some s)
        (if-holds HasRun (not (e.validate (w.owner k) action s') || e.is_deleted k s') (some s')
          later (s', refl, h')
          (if-holds HasRun (same_result r' in_progress) (some s') run (s', refl, h')
            (on_action_result-HasRun k r' s' h')))
        (s, refl, h)

  on_root_cause-HasRun :
      (fuel : ℕ) (r : Result) (s : S)
      → is_rule (w.kind (w.owner i)) ≡ true
      → HasRun (on_root_cause e w (sequencer e w (suc fuel)) i r s)
  unfolding on_root_cause to_action
  on_root_cause-HasRun fuel r s kind = elim (Bool-cases (e.has_run i s)) [
    | inl ran ↦ rw (kind, ran) (s, refl, ran)
    | inr fresh ↦
        rw (kind, fresh)
          (for_each-HasRun _ (w.action_list (w.owner i)) (e.set_run i true s)
            (keeps.has_run-set_run i true s)
            (λ a s' h'.
              let k = obj_instance w a i in
              action-HasRun fuel k r (pos 0)
                (if w.is_silent (w.owner k) then s' else e.recovery_in_progress i k s')
                (if-holds (λ t. e.has_run i t ≡ true) (w.is_silent (w.owner k)) s'
                  (e.recovery_in_progress i k s') h' (keeps.has_run-recovery i i k s' ∙ h'))))
  ]

  on_root_cause-ran :
      (self : Self S) (r : Result) (s : S)
      → is_rule (w.kind (w.owner i)) ≡ true
      → e.has_run i s ≡ true
      → on_root_cause e w self i r s ≡ some s
  unfolding on_root_cause
  on_root_cause-ran self r s kind ran = rw (kind, ran) refl

  for_each-Performed :
      (fuel : ℕ) (r : Result) (actions : List ℕ) (s s' : S)
      → for_each (to_action e w (sequencer e w fuel) i r) actions s ≡ some s'
      → Performed e w i fuel r actions s s'
  unfolding for_each Performed to_action
  for_each-Performed fuel r [] s s' done = some_injective done
  for_each-Performed fuel r (a ∷ as') s s' done =
      elim (Option-cases
        (sequencer e w fuel action_run (action_of e w i a) r (pos 0) (announced e w i a s))) [
          | inl stuck ↦ absurd (cc (rw stuck at done))
          | inr (s1, first) ↦ (s1, first, for_each-Performed fuel r as' s1 s' (rw first at done))
        ]

  on_root_cause-Performed :
      (fuel : ℕ) (r : Result) (s s' : S)
      → is_rule (w.kind (w.owner i)) ≡ true
      → e.has_run i s ≡ false
      → on_root_cause e w (sequencer e w fuel) i r s ≡ some s'
      → Performed e w i fuel r (w.action_list (w.owner i)) (e.set_run i true s) s'
  unfolding on_root_cause
  on_root_cause-Performed fuel r s s' kind fresh done =
      for_each-Performed fuel r (w.action_list (w.owner i)) (e.set_run i true s) s'
        (rw (kind, fresh) at done)

  -- Where the engine's other operations leave action_run alone, SEQ_RULE_ROOT_CAUSE on a valid rule
  -- instance whose action_run is clear returns. It sets action_run and handles SEQ_ACTION_RUN for each
  -- action of the rule, in order, on the instance that matches, with the result of the event. The
  -- same event on the state that it leaves changes nothing, with any result and value.
  pub root_cause-runs_once :
      (fuel : ℕ) (r r' : Result) (v v' : ℤ) (s : S)
      → is_rule (w.kind (w.owner i)) ≡ true
      → e.instance_validate i any s ≡ true
      → e.has_run i s ≡ false
      → (s' : S) × (sequencer e w (suc (suc fuel)) rule_root_cause i r v s ≡ some s')
        × (e.has_run i s' ≡ true)
        × Performed e w i (suc fuel) r (w.action_list (w.owner i)) (e.set_run i true s) s'
        × (sequencer e w (suc (suc fuel)) rule_root_cause i r' v' s' ≡ some s')
  unfolding sequencer on_event
  root_cause-runs_once fuel r r' v v' s kind valid fresh =
      let (s', done, ran) = on_root_cause-HasRun fuel r s kind in
      (
        s',
        (rw valid done),
        ran,
        on_root_cause-Performed (suc fuel) r s s' kind fresh done,
        if-holds (λ o. o ≡ some s') (e.instance_validate i any s')
            (on_root_cause e w (sequencer e w (suc fuel)) i r' s') (some s')
            (on_root_cause-ran (sequencer e w (suc fuel)) r' s' kind ran) refl,
      )
