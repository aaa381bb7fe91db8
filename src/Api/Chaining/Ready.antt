-- ===== src/Api/Chaining/Ready.antt =====
-- `myrefl_obj_chain_update_state` (src/myrefl_obj.c) and `myrefl_test_chain_ready`
-- (src/myrefl_api.c) for a whole chain.
use myreflection.Common.{
  ℕ, zero, suc, ◌<◌, ◌≡◌, refl, sym, ◌≢◌, ◌∙◌, ◌⊎◌, inl, inr, ap, subst, Bool, true, false, Option,
  some, arith, ◌==◌, ==_iff, Bool-cases, update,
}
use myreflection.Types.{ObjState, initialized, deleted, ObjType, test}
use myreflection.Api.Linking.{Links}
use myreflection.Api.Chaining.{
  Store, settle_at, update_by_type, chain_update_state, settle_instance, wanted, cli_again,
  ready_calls, ready_by_state, test_chain_ready,
}
use myreflection.Api.States.{Object, running, phase_of, change_all, is_initialized}
use myreflection.Api.Chaining.Reached.{Settles, SettlesAll, test_Settles, rule_Settles, other_cases}
use myreflection.Api.Chaining.Settled.{
  Leads, itself, by_test, by_next, by_action, by_output, IsOrdered, IsSane, settled_object, Changed,
  Changed-none, Changed-at, Changed-iff,
}

module _ (l : Links) (live valid : ℕ → Bool) (s : ObjState) (s_live : s ≢ deleted)
    (s_set : s ≢ initialized) (height : ℕ → ℕ) (ordered : IsOrdered l height) where
  by_type_Settles :
      (self : ℕ → Store → Option Store) (k : ObjType) (o : ℕ) (st : Store)
      → live o ≡ true
      → l.kind o ≡ k
      → ((r : ℕ) → height r < height o → SettlesAll l live valid s s_live s_set self r)
      → IsSane valid live st
      → Settles l live valid s s_live s_set (Leads l live o) st (update_by_type l self k s o st)
  unfolding update_by_type Settles
  by_type_Settles self ObjType.test o st alive k calls sane =
      test_Settles l live valid s s_live s_set self o st alive k
        (λ r e. calls r (ordered.test_rule o r k e)) sane
  by_type_Settles self ObjType.rule o st alive k calls sane =
      rule_Settles l live valid s s_live s_set self o st alive k
        (λ r e. calls r (ordered.next o r k e)) (λ a m. calls a (ordered.actions o a k m))
        (λ r e. calls r (ordered.output o r k e)) sane
  by_type_Settles self ObjType.action o st alive k calls sane = (
    settle_at s o st,
    refl,
    Changed-iff s s_live s_set _ (Leads l live o) st (settle_at s o st)
        (λ x e. subst (λ y. Leads l live o y) (sym e) (itself alive (inr (inr k))))
        (λ x p. (other_cases l live valid s s_live s_set (λ h. cc) (λ h. cc) p).0)
        (Changed-at s s_live s_set o st),
  )
  by_type_Settles self _ o st alive k calls sane = (
    st,
    refl,
    Changed-iff s s_live s_set (λ x. ⊥) (Leads l live o) st st (λ x h. absurd h)
        (λ x p.
          let (e, k') = other_cases l live valid s s_live s_set (λ h. cc) (λ h. cc) p in
          absurd (cc))
        (Changed-none s s_live s_set st),
  )

  dead_cases : {o x : ℕ} → live o ≡ false → Leads l live o x → ⊥
  dead_cases d (itself alive k) = absurd (cc)
  dead_cases d (by_test alive k e p) = absurd (cc)
  dead_cases d (by_next alive k e p) = absurd (cc)
  dead_cases d (by_action alive k e p) = absurd (cc)
  dead_cases d (by_output alive k e p) = absurd (cc)

  chain-Settles :
      (fuel o : ℕ)
      → height o < fuel
      → SettlesAll l live valid s s_live s_set (chain_update_state fuel l valid s) o
  unfolding chain_update_state Settles
  chain-Settles zero o h st sane = absurd (omega (arith, h))
  chain-Settles (suc fuel) o h st sane = elim (Bool-cases (live o)) [
    | inl alive ↦ rw (sym (sane.same o) ∙ alive) (
        by_type_Settles (chain_update_state fuel l valid s) (l.kind o) o st alive refl
          (λ r lower. chain-Settles fuel r (omega (arith, lower, h))) sane)
    | inr dead ↦ rw (sym (sane.same o) ∙ dead) (
      st,
      refl,
      Changed-iff s s_live s_set (λ x. ⊥) (Leads l live o) st st (λ x h. absurd h)
          (λ x p. dead_cases dead p) (Changed-none s s_live s_set st),
    )
  ]

-- The objects and instances after an update with this state: those that are led to have settled.
abbrev pub ChainSettled : Links → (ℕ → Bool) → ObjState → (from : ℕ) → Store → Store → Type 0
ChainSettled l live s o st st' =
    (x : ℕ)
    → (Leads l live o x × (st' x ≡ change_all (settle_instance s) (st x)))
      ⊎ ((¬ Leads l live o x) × (st' x ≡ st x))

-- Where the pointers of tests and rules lead downwards, nothing asks for a deletion, and the state to
-- be set is neither that of a deletion nor of a forward reference, myrefl_obj_chain_update_state
-- returns in a depth of more calls than the height of its object. Then exactly the objects that the
-- object leads to, over live objects, have settled with all their instances: each is in the state
-- that the CLI asks for, else (unless it is a forward reference) in the one that the application has
-- asked for, else in this state. All other objects are as they were.
pub chain_update_state-ChainSettled :
    (l : Links) (live valid : ℕ → Bool) (s : ObjState) (height : ℕ → ℕ) (fuel o : ℕ) (st : Store)
    → s ≢ deleted
    → s ≢ initialized
    → IsOrdered l height
    → IsSane valid live st
    → height o < fuel
    → (st' : Store) × (chain_update_state fuel l valid s o st ≡ some st')
      × ChainSettled l live s o st st'
unfolding Settles Changed settled_object
chain_update_state-ChainSettled l live valid s height fuel o st s_live s_set ordered sane h =
    chain-Settles l live valid s s_live s_set height ordered fuel o h st sane

-- An object whose base instance follows the CLI.
Follows : Object → Type 0
Follows o = (is_initialized o.base.cli_state ≡ true) ⊎ (o.base.state ≡ o.base.cli_state)

settle_instance-Follows : (s : ObjState) (o : Object) → Follows (change_all (settle_instance s) o)
unfolding Follows settle_instance
settle_instance-Follows s o = elim (Bool-cases (is_initialized o.base.cli_state)) [
  | inl unset ↦ inl (ground (arith, unset))
  | inr set ↦ inr (ground (arith, set))
]

updated_same : (t : ℕ) (st : Store) (o : Object) → o ≡ st t → (x : ℕ) → update st t o x ≡ st x
updated_same t st o e x = elim (Bool-cases (x == t)) [
  | inl hit ↦ rw hit (e ∙ ap st (sym ((==_iff x t).0 hit)))
  | inr miss ↦ rw miss refl
]

cli_again-same : (t : ℕ) (st : Store) → Follows (st t) → (x : ℕ) → cli_again t st x ≡ st x
unfolding Follows
cli_again-same t st (inl unset) x = rw unset refl
cli_again-same t st (inr follows) x = elim (Bool-cases (is_initialized (st t).base.cli_state)) [
  | inl unset ↦ rw unset refl
  | inr set ↦ rw set (
      updated_same t st _
        (λ j. record (st t) { base = record (st t).base { state = sym follows j } }) x)
]

running_ready :
    (state : ObjState) (update_chain : ℕ → Store → Option Store) (t : ℕ) (st st1 : Store)
    → phase_of state ≡ running
    → update_chain t st ≡ some st1
    → ready_by_state state update_chain t st
      ≡ some (cli_again t st1, ready_calls (cli_again t st1 t))
unfolding ready_by_state
running_ready ObjState.enabled u t st st1 p e = rw e refl
running_ready ObjState.disabled u t st st1 p e = rw e refl
running_ready ObjState.created u t st st1 p e = rw e refl
running_ready _ u t st st1 p e = absurd (cc)

-- For a live test that has been created, with the conditions of the update of its chain for the
-- state that its component or the default wants, myrefl_test_chain_ready returns. Exactly the objects
-- that the test leads to have settled in that state, all others are as they were, and the scheduler
-- is handed all instances of the test if it is polled and its base instance is now enabled, and
-- nothing else.
pub test_chain_ready-ChainSettled :
    (l : Links) (live valid : ℕ → Bool) (d : ObjState) (parent : ℕ → Option ℕ) (height : ℕ → ℕ)
    (fuel t : ℕ) (st : Store)
    → l.kind t ≡ test
    → live t ≡ true
    → phase_of (st t).base.state ≡ running
    → wanted d (parent t) st ≢ deleted
    → wanted d (parent t) st ≢ initialized
    → IsOrdered l height
    → IsSane valid live st
    → height t < fuel
    → (st' : Store) × (test_chain_ready fuel l valid d parent (some t) st
        ≡ some (st', ready_calls (st' t)))
      × ChainSettled l live (wanted d (parent t) st) t st st'
unfolding test_chain_ready
test_chain_ready-ChainSettled l live valid d parent height fuel t st k alive p s_live s_set ordered
      sane h =
    let s = wanted d (parent t) st in
    let (st1, e, all) =
      chain_update_state-ChainSettled l live valid s height fuel t st s_live s_set ordered sane h in
    let follows : Follows (st1 t) = elim (all t) [
      | inl (leads, settled_object) ↦
          subst Follows (sym settled_object) (settle_instance-Follows s (st t))
      | inr (away, same) ↦ absurd (away (itself alive (inl k)))
    ] in
    (
      cli_again t st1,
      running_ready (st t).base.state (chain_update_state fuel l valid s) t st st1 p e,
      λ x.
          let same = cli_again-same t st1 follows x in
          elim (all x) [
            | inl (leads, settled_object) ↦ inl (leads, same ∙ settled_object)
            | inr (away, kept) ↦ inr (away, same ∙ kept)
          ],
    )
