-- ===== src/Api/States/Calls.antt =====
-- Any calls of the functions that enable, disable and default an object (src/myrefl_api.c).
use myreflection.Common.{
  ℕ, ◌≡◌, refl, Bool, Option, none, some, List, [], ◌∷◌, ◌>>=◌, subst, some_injective, Option-cases,
  inl, inr, arith,
}
use myreflection.Types.{enabled, disabled}
use myreflection.Api.States.{Object, Who, instances, Defaulting, kept, deleting}
use myreflection.Api.States.Overrides.{
  AllAgree, enable-Agrees, disable-Agrees, note_asked-Agrees, switch_states-AllAgree, Kept,
  defaulted-Kept,
}
use myreflection.Api.States.Guts.{
  test_enable_guts, test_disable_guts, test_default, action_enable_guts, action_disable_guts,
  action_default, rule_enable_guts, rule_disable_guts, rule_default,
}

-- A call of one of the functions, with its arguments.
pub data Op : Type 0 where
  test_enabling test_disabling action_enabling action_disabling rule_enabling rule_disabling :
      (cli : Bool) → (memory : Option ℕ) → Who → Op
  test_defaulting action_defaulting rule_defaulting : Who → Op

abbrev pub remaining : Defaulting → Option Object
remaining deleting = none
remaining (kept o calls) = some o

-- The object after a call; none where the call deletes it.
unfoldable pub apply : Op → Object → Option Object
apply (test_enabling cli memory who) o = some (test_enable_guts cli memory who o).0
apply (test_disabling cli memory who) o = some (test_disable_guts cli memory who o).0
apply (test_defaulting who) o = remaining (test_default who o)
apply (action_enabling cli memory who) o = some (action_enable_guts cli memory who o)
apply (action_disabling cli memory who) o = some (action_disable_guts cli memory who o)
apply (action_defaulting who) o = remaining (action_default who o)
apply (rule_enabling cli memory who) o = some (rule_enable_guts cli memory who o)
apply (rule_disabling cli memory who) o = some (rule_disable_guts cli memory who o)
apply (rule_defaulting who) o = remaining (rule_default who o)

unfoldable pub apply_ops : List Op → Object → Option Object
apply_ops [] o = some o
apply_ops (op ∷ ops) o = do o' ← apply op o; apply_ops ops o'

remaining-AllAgree :
    (e : Defaulting) (o : Object) → Kept e → remaining e ≡ some o → AllAgree (instances o)
unfolding Kept
remaining-AllAgree deleting o k e = absurd (cc)
remaining-AllAgree (kept o' calls) o k e = subst (λ x. AllAgree (instances x)) (some_injective e) k

abbrev pub After : Op → Object → Type 0
After op o = (o' : Object) → apply op o ≡ some o' → AllAgree (instances o')

request_After :
    (x o' : Object) → AllAgree (instances x) → some x ≡ some o' → AllAgree (instances o')
request_After x o' a e = subst (λ y. AllAgree (instances y)) (some_injective e) a

apply-AllAgree :
    (op : Op) (o o' : Object)
    → AllAgree (instances o)
    → apply op o ≡ some o'
    → AllAgree (instances o')
unfolding apply test_enable_guts test_disable_guts test_default action_enable_guts
    action_disable_guts action_default rule_enable_guts rule_disable_guts rule_default
apply-AllAgree (test_enabling cli memory who) o o' a e =
    request_After _ o'
      (switch_states-AllAgree _ _ (enable-Agrees cli) (note_asked-Agrees cli enabled) _ memory who o
        a)
      e
apply-AllAgree (test_disabling cli memory who) o o' a e =
    request_After _ o'
      (switch_states-AllAgree _ _ (disable-Agrees cli) (note_asked-Agrees cli disabled) _ memory who
        o a)
      e
apply-AllAgree (action_enabling cli memory who) o o' a e =
    request_After _ o'
      (switch_states-AllAgree _ _ (enable-Agrees cli) (note_asked-Agrees cli enabled) _ memory who o
        a)
      e
apply-AllAgree (action_disabling cli memory who) o o' a e =
    request_After _ o'
      (switch_states-AllAgree _ _ (disable-Agrees cli) (note_asked-Agrees cli disabled) _ memory who
        o a)
      e
apply-AllAgree (rule_enabling cli memory who) o o' a e =
    request_After _ o'
      (switch_states-AllAgree _ _ (enable-Agrees cli) (note_asked-Agrees cli enabled) _ memory who o
        a)
      e
apply-AllAgree (rule_disabling cli memory who) o o' a e =
    request_After _ o'
      (switch_states-AllAgree _ _ (disable-Agrees cli) (note_asked-Agrees cli disabled) _ memory who
        o a)
      e
apply-AllAgree (test_defaulting who) o o' a e =
    remaining-AllAgree _ o' (defaulted-Kept _ _ _ _ who o (λ x. refl) a) e
apply-AllAgree (action_defaulting who) o o' a e =
    remaining-AllAgree _ o' (defaulted-Kept _ _ _ _ who o (λ x. refl) a) e
apply-AllAgree (rule_defaulting who) o o' a e =
    remaining-AllAgree _ o' (defaulted-Kept _ _ _ _ who o (λ x. refl) a) e

-- However often a test, an action or a rule is enabled, disabled and defaulted, by the application
-- and by the CLI, as a whole and by instances that exist or are created by the call: while no instance
-- has started in a state that the CLI had overridden, none is ever enabled that the CLI has
-- disabled, nor disabled that the CLI has enabled, as long as the object is not deleted.
pub apply_ops-AllAgree :
    (ops : List Op) (o o' : Object)
    → AllAgree (instances o)
    → apply_ops ops o ≡ some o'
    → AllAgree (instances o')
unfolding apply_ops
apply_ops-AllAgree [] o o' a e = request_After o o' a e
apply_ops-AllAgree (op ∷ ops) o o' a e = elim (Option-cases (apply op o)) [
  | inl gone ↦ absurd (ground (arith, e, gone))
  | inr (o1, step) ↦
      apply_ops-AllAgree ops o1 o' (apply-AllAgree op o o1 a step) (ground (arith, e, step))
]
