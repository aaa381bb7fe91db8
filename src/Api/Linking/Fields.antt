-- ===== src/Api/Linking/Fields.antt =====
-- What the parts of `myrefl_rule_create` (src/myrefl_api.c) leave of an object's fields, and what a
-- completed call has gone through.
use myreflection.Common.{
  ℕ, ◌≡◌, refl, sym, ◌∙◌, ap, subst, true, false, not, Option, none, some, List, [], ◌∷◌, arith,
  ◌==◌, update, if◌then◌else◌, is_nil, ==_iff, ◌&&◌, inl, inr, Bool-cases, Option-cases,
  some_injective,
}
use myreflection.Types.{ObjType}
use myreflection.Api.Linking.{
  Links, feeds_rules, with_head, head_output_rule, set_head_output_rule, inputs_of,
  rule_input_search, rule_depth_limit, unlink_from, with_next, unlink_inputs, pop_inputs,
  link_input, add_action, finish, points_at, Named, bad_name, no_object, object, Outcome, done,
  create_with_action, create_unlinked, create_checked, create_named, rule_create,
}

-- The types and the inputs are the same.
pub record SameInputs (l l' : Links) : Type 0 where
  pub kind : l'.kind ≡ l.kind
  pub inputs : l'.inputs ≡ l.inputs

with_head-SameInputs :
    (k : ObjType) (o : ℕ) (v : Option ℕ) (l : Links) → SameInputs l (with_head k o v l)
with_head-SameInputs ObjType.any o v l = record { kind = refl; inputs = refl }
with_head-SameInputs ObjType.none o v l = record { kind = refl; inputs = refl }
with_head-SameInputs ObjType.test o v l = record { kind = refl; inputs = refl }
with_head-SameInputs ObjType.rule o v l = record { kind = refl; inputs = refl }
with_head-SameInputs ObjType.action o v l = record { kind = refl; inputs = refl }
with_head-SameInputs ObjType.comp o v l = record { kind = refl; inputs = refl }

pub set_head-SameInputs :
    (o : ℕ) (v : Option ℕ) (l : Links) → SameInputs l (set_head_output_rule o v l)
unfolding set_head_output_rule
set_head-SameInputs o v l = with_head-SameInputs (l.kind o) o v l

with_next-SameInputs :
    (l l' : Links) (w : Option (ℕ → Option ℕ)) → with_next l w ≡ some l' → SameInputs l l'
with_next-SameInputs l l' none e = absurd (cc)
with_next-SameInputs l l' (some next) e =
    subst (SameInputs l) (some_injective e) (record { kind = refl; inputs = refl })

unlink_from-SameInputs :
    (fuel r o : ℕ) (l l' : Links) → unlink_from fuel r o l ≡ some l' → SameInputs l l'
unfolding unlink_from
unlink_from-SameInputs fuel r o l l' e = elim (Bool-cases (feeds_rules (l.kind o))) [
  | inr silent ↦
      subst (SameInputs l) (some_injective (rw silent at e)) (record { kind = refl; inputs = refl })
  | inl feeds ↦ elim (Bool-cases (points_at (head_output_rule l o) r)) [
    | inl first ↦
        subst (SameInputs l) (some_injective (rw (feeds, first) at e))
          (set_head-SameInputs o (l.next_in_input r) l)
    | inr later ↦ with_next-SameInputs l l' _ (rw (feeds, later) at e)
  ]
]

pub unlink_inputs-SameInputs :
    (fuel r : ℕ) (os : List ℕ) (l l' : Links)
    → unlink_inputs fuel r os l ≡ some l'
    → SameInputs l l'
unfolding unlink_inputs
unlink_inputs-SameInputs fuel r [] l l' e =
    subst (SameInputs l) (some_injective e) (record { kind = refl; inputs = refl })
unlink_inputs-SameInputs fuel r (o ∷ os) l l' e = elim (Option-cases (unlink_from fuel r o l)) [
  | inl out ↦ absurd (ground (arith, e, out))
  | inr (l1, first) ↦
      let s = unlink_from-SameInputs fuel r o l l1 first in
      let s' = unlink_inputs-SameInputs fuel r os l1 l' (ground (arith, e, first)) in
      record { kind = s'.kind ∙ s.kind; inputs = s'.inputs ∙ s.inputs }
]

-- After the pops the rule has no inputs, and it has lost its place if it had some.
pub record Popped (r : ℕ) (had : List ℕ) (l l' : Links) : Type 0 where
  pub kind : l'.kind ≡ l.kind
  pub test_rule : l'.test_rule ≡ l.test_rule
  pub output : l'.output ≡ l.output
  pub ref_rule : l'.ref_rule ≡ l.ref_rule
  pub inputs : (x : ℕ) → l'.inputs x ≡ (if x == r then [] else l.inputs x)
  pub next :
      (x : ℕ)
      → l'.next_in_input x ≡ (if (x == r) && not (is_nil had) then none else l.next_in_input x)

pub pop_inputs-Popped :
    (r : ℕ) (os : List ℕ) (l : Links) → l.inputs r ≡ os → Popped r os l (pop_inputs r os l)
unfolding pop_inputs
pop_inputs-Popped r [] l e = record {
  kind = refl;
  test_rule = refl;
  output = refl;
  ref_rule = refl;
  inputs = λ x. elim (Bool-cases (x == r)) [
    | inl same ↦ rw same (subst (λ y. l.inputs y ≡ []) (sym ((==_iff x r).0 same)) e)
    | inr other ↦ rw other
  ];
  next = λ x. ground arith;
}
pop_inputs-Popped r (o ∷ os) l e =
    let l1 = record l {
      inputs = update l.inputs r os;
      next_in_input = update l.next_in_input r none;
    } in
    let p = pop_inputs-Popped r os l1 (ground arith) in
    record {
      kind = p.kind;
      test_rule = p.test_rule;
      output = p.output;
      ref_rule = p.ref_rule;
      inputs = λ x. ground (arith, p.inputs x);
      next = λ x. ground (arith, p.next x);
    }

-- What a completed `myrefl_rule_create` has gone through.
pub record Created (fuel r i : ℕ) (l l' : Links) : Type 0 where
  pub feeds : feeds_rules (l.kind i) ≡ true
  pub fresh : rule_input_search rule_depth_limit (inputs_of l) i r ≡ false
  pub no_loop : rule_input_search rule_depth_limit (inputs_of l) r i ≡ false
  pub unlinked : Links
  pub unlinking : unlink_inputs fuel r (l.inputs r) l ≡ some unlinked
  pub chosen : ℕ
  pub result :
      l'
      ≡ finish r (link_input r i (add_action r chosen (pop_inputs r (unlinked.inputs r) unlinked)))

done_links : Outcome → Links → Links
done_links (done l) d = l
done_links _ d = d

pub done_injective : (l l' : Links) → done l ≡ done l' → l ≡ l'
unfolding done_links
done_injective l l' e = ap (λ o. done_links o l) e

create_with_action-done :
    (r i : ℕ) (a : Named) (l l' : Links)
    → create_with_action r i a l ≡ done l'
    → (c : ℕ) × (l' ≡ finish r (link_input r i (add_action r c l)))
unfolding create_with_action
create_with_action-done r i (object c) l l' e = (c, sym (done_injective _ l' e))
create_with_action-done r i bad_name l l' e = absurd (cc)
create_with_action-done r i no_object l l' e = absurd (cc)

create_unlinked-done :
    (r i : ℕ) (a : Named) (o : Option Links) (l' : Links)
    → create_unlinked r i a o ≡ done l'
    → (u : Links) × (o ≡ some u)
      × (create_with_action r i a (pop_inputs r (u.inputs r) u) ≡ done l')
unfolding create_unlinked
create_unlinked-done r i a none l' e = absurd (cc)
create_unlinked-done r i a (some u) l' e = (u, refl, e)

create_checked-Created :
    (fuel r i : ℕ) (a : Named) (l l' : Links)
    → create_checked fuel r i a l ≡ done l'
    → Created fuel r i l l'
unfolding create_checked
create_checked-Created fuel r i a l l' e =
    let feeds : feeds_rules (l.kind i) ≡ true = ground (arith, e) in
    let fresh : rule_input_search rule_depth_limit (inputs_of l) i r ≡ false = ground (arith, e) in
    let no_loop : rule_input_search rule_depth_limit (inputs_of l) r i ≡ false =
      ground (arith, e) in
    let (u, unlinking, made) = create_unlinked-done r i a _ l' (rw (feeds, fresh, no_loop) at e) in
    let (c, result) = create_with_action-done r i a _ l' made in
    record {
      feeds = feeds;
      fresh = fresh;
      no_loop = no_loop;
      unlinked = u;
      unlinking = unlinking;
      chosen = c;
      result = result;
    }

pub rule_create-Created :
    (fuel r i : ℕ) (a : Named) (l l' : Links)
    → rule_create fuel (object r) (object i) a l ≡ done l'
    → Created fuel r i l l'
unfolding rule_create create_named
rule_create-Created fuel r i bad_name l l' e = absurd (cc)
rule_create-Created fuel r i no_object l l' e = create_checked-Created fuel r i no_object l l' e
rule_create-Created fuel r i (object a) l l' e = create_checked-Created fuel r i (object a) l l' e
