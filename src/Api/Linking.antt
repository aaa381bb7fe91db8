-- ===== src/Api/Linking.antt =====
-- How rules are linked to their inputs and actions: `get_head_output_rule`, `rule_input_search`,
-- `myrefl_rule_create` and `myrefl_rule_add_input` of src/myrefl_api.c. Objects are numbers (an
-- object and its rule, test or action are one), and their fields are functions of them.
pub mod Search
pub mod Fields
pub mod Acyclic
pub mod Chains
pub mod Placed
pub mod Filed
pub mod Runs
pub mod SelfInput
pub mod AddInput
use myreflection.Common.{
  ℕ, zero, suc, Bool, true, false, not, ◌||◌, Option, none, some, List, [], ◌∷◌, ◌==◌,
  if◌then◌else◌, update, is_some, ◌>>=◌,
}
use myreflection.Types.{ObjType, is_rule, ObjState}
use myreflection.Rci.Depend.{list_add}

-- The fields of the objects that linking reads and writes. An object's first output rule stands in
-- the test's `rule`, the rule's `output`, or `ref_rule` while the type is unknown.
pub record Links : Type 0 where
  pub kind : ℕ → ObjType
  pub state : ℕ → ObjState
  pub inputs : ℕ → List ℕ
  pub test_rule : ℕ → Option ℕ
  pub output : ℕ → Option ℕ
  pub ref_rule : ℕ → Option ℕ
  pub next_in_input : ℕ → Option ℕ
  pub action_list : ℕ → List ℕ
  pub rule_list : ℕ → List ℕ

-- RULE_DEPTH_LIMIT.
abbrev pub rule_depth_limit : ℕ
rule_depth_limit = 25

-- What an input may be: a test, a rule, or an object whose type is not known yet.
abbrev pub feeds_rules : ObjType → Bool
feeds_rules ObjType.test = true
feeds_rules ObjType.rule = true
feeds_rules ObjType.none = true
feeds_rules _ = false

-- What `get_head_output_rule` points at, in an object of this type; NULL elsewhere.
abbrev pub head_for : ObjType → (test_rule output ref_rule : Option ℕ) → Option ℕ
head_for ObjType.test t o f = t
head_for ObjType.rule t o f = o
head_for ObjType.none t o f = f
head_for _ t o f = none

unfoldable pub head_output_rule : Links → ℕ → Option ℕ
head_output_rule l o = head_for (l.kind o) (l.test_rule o) (l.output o) (l.ref_rule o)

abbrev pub with_head : ObjType → ℕ → Option ℕ → Links → Links
with_head ObjType.test o v l = record l { test_rule = update l.test_rule o v }
with_head ObjType.rule o v l = record l { output = update l.output o v }
with_head ObjType.none o v l = record l { ref_rule = update l.ref_rule o v }
with_head _ o v l = l

-- A write through the pointer that `get_head_output_rule` returns.
unfoldable pub set_head_output_rule : ℕ → Option ℕ → Links → Links
set_head_output_rule o v l = with_head (l.kind o) o v l

-- The inputs that `rule_input_search` looks through.
abbrev pub inputs_of : Links → ℕ → List ℕ
inputs_of l o = if is_rule (l.kind o) then l.inputs o else []

-- The loop of `rule_input_search`, with the search of an input.
unfoldable pub any_input : (ℕ → Bool) → (target : ℕ) → List ℕ → Bool
any_input search target [] = false
any_input search target (i ∷ is) =
    if i == target then true else if search i then true else any_input search target is

-- `rule_input_search`, with the depth that is left to the limit.
unfoldable pub rule_input_search : (depth_left : ℕ) → (ℕ → List ℕ) → (target obj : ℕ) → Bool
rule_input_search zero inputs target o = true
rule_input_search (suc k) inputs target o =
    any_input (rule_input_search k inputs target) target (inputs o)

-- The loop that looks for the rule behind the head of a chain and takes it off. None means that
-- the walk has not ended within its fuel.
unfoldable pub unlink_walk :
    (fuel rule : ℕ) → (prev : Option ℕ) → (ℕ → Option ℕ) → Option (ℕ → Option ℕ)
unlink_walk fuel r none next = some next
unlink_walk zero r (some p) next = none
unlink_walk (suc fuel) r (some p) next = elim (next p) [
  | none ↦ some next
  | some q ↦
      (let rest = unlink_walk fuel r (some q) next in
        if q == r then some (update next p (next r)) else rest)
]

abbrev pub with_next : Links → Option (ℕ → Option ℕ) → Option Links
with_next l none = none
with_next l (some next) = some (record l { next_in_input = next })

-- Does the pointer lead to this object?
abbrev pub points_at : Option ℕ → ℕ → Bool
points_at none r = false
points_at (some p) r = p == r

-- A rule leaves the chain of one of its inputs.
unfoldable pub unlink_from : (fuel rule input : ℕ) → Links → Option Links
unlink_from fuel r o l =
    if not (feeds_rules (l.kind o))
    then some l
    else if points_at (head_output_rule l o) r
    then some (set_head_output_rule o (l.next_in_input r) l)
    else with_next l (unlink_walk fuel r (head_output_rule l o) l.next_in_input)

-- The loop over the inputs.
unfoldable pub unlink_inputs : (fuel rule : ℕ) → List ℕ → Links → Option Links
unlink_inputs fuel r [] l = some l
unlink_inputs fuel r (o ∷ os) l = do l' ← unlink_from fuel r o l; unlink_inputs fuel r os l'

-- The loop that pops the inputs. It has no body of its own: clearing `next_in_input` is its body.
unfoldable pub pop_inputs : ℕ → List ℕ → Links → Links
pop_inputs r [] l = l
pop_inputs r (o ∷ os) l =
    pop_inputs r os
      (record l { inputs = update l.inputs r os; next_in_input = update l.next_in_input r none })

-- The rule goes to the head of the input's chain, in both functions.
unfoldable pub link_input : (rule input : ℕ) → Links → Links
link_input r o l =
    let added = record l { inputs = update l.inputs r (list_add o (l.inputs r)) } in
    if feeds_rules (l.kind o)
    then set_head_output_rule o (some r)
        (record added { next_in_input = update l.next_in_input r (head_output_rule l o) })
    else added

unfoldable pub add_action : (rule action : ℕ) → Links → Links
add_action r a l = record l {
  action_list = update l.action_list r (list_add a (l.action_list r));
  rule_list = update l.rule_list a (list_add r (l.rule_list a));
}

-- The rules that named this one before it was created, and its state.
unfoldable pub finish : ℕ → Links → Links
finish r l = record l {
  output = if is_some (l.ref_rule r) then update l.output r (l.ref_rule r) else l.output;
  state = update l.state r ObjState.created;
}

-- What a name gives: NULL or an empty name, no object (out of memory, or of another type), or one.
pub data Named : Type 0 where
  bad_name no_object : Named
  object : ℕ → Named

abbrev pub is_bad : Named → Bool
is_bad bad_name = true
is_bad _ = false

-- How a call ends: with an error, with an error and the deletion of the rule, or done. `stuck`
-- means that a walk has not ended within its fuel.
pub data Outcome : Type 0 where
  refused : Links → Outcome
  deleting : (rule : ℕ) → Links → Outcome
  done : Links → Outcome
  stuck : Outcome

unfoldable pub create_with_action : (rule input : ℕ) → Named → Links → Outcome
create_with_action r i (object a) l = done (finish r (link_input r i (add_action r a l)))
create_with_action r i _ l = deleting r l

unfoldable pub create_unlinked : (rule input : ℕ) → Named → Option Links → Outcome
create_unlinked r i a none = stuck
create_unlinked r i a (some l) = create_with_action r i a (pop_inputs r (l.inputs r) l)

unfoldable pub create_checked : (fuel rule input : ℕ) → Named → Links → Outcome
create_checked fuel r i a l =
    if not (feeds_rules (l.kind i))
    then deleting r l
    else if rule_input_search rule_depth_limit (inputs_of l) i r
    then refused l
    else if rule_input_search rule_depth_limit (inputs_of l) r i
    then deleting r l
    else create_unlinked r i a (unlink_inputs fuel r (l.inputs r) l)

unfoldable pub create_named : (fuel : ℕ) → (rule input action : Named) → Links → Outcome
create_named fuel (object r) (object i) a l = create_checked fuel r i a l
create_named fuel (object r) _ a l = deleting r l
create_named fuel _ i a l = refused l

-- `myrefl_rule_create`.
unfoldable pub rule_create : (fuel : ℕ) → (rule input action : Named) → Links → Outcome
rule_create fuel r i a l =
    if is_bad r || (is_bad i || is_bad a) then refused l else create_named fuel r i a l

unfoldable pub add_input_named : (rule input : Named) → Links → Outcome
add_input_named (object r) (object i) l =
    if not (feeds_rules (l.kind i))
    then refused l
    else if rule_input_search rule_depth_limit (inputs_of l) i r
    then refused l
    else if rule_input_search rule_depth_limit (inputs_of l) r i
    then refused l
    else done (link_input r i l)
add_input_named _ _ l = refused l

-- `myrefl_rule_add_input`.
unfoldable pub rule_add_input : (rule input : Named) → Links → Outcome
rule_add_input r i l = if is_bad r || is_bad i then refused l else add_input_named r i l
