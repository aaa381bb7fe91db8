-- ===== src/Api/Linking/Filed.antt =====
-- `myrefl_rule_create` (src/myrefl_api.c) keeps the inputs of the rules and the chains of the
-- objects that feed them in agreement.
use myreflection.Common.{
  ℕ, ◌≤◌, ◌≡◌, refl, sym, ◌≢◌, ◌∙◌, inl, inr, ap, subst, true, false, some, none, List, [], ◌∷◌,
  arith, ◌==◌, ==_iff, has, remove, Distinct, length, update, if◌then◌else◌, if-holds, Bool-cases,
  has-remove_ne, has-remove_self, Distinct-remove,
}
use myreflection.Types.{rule}
use myreflection.Api.Linking.{
  Links, feeds_rules, inputs_of, rule_input_search, rule_depth_limit, head_output_rule,
  unlink_inputs, pop_inputs, Named, is_bad, bad_name, no_object, object, Outcome, refused, deleting,
  done, stuck, create_with_action, create_unlinked, create_checked, create_named, rule_create,
}
use myreflection.Api.Linking.Fields.{unlink_inputs-SameInputs}
use myreflection.Api.Linking.Acyclic.{placed, placed-inputs, placed-kind}
use myreflection.Api.Linking.Placed.{IsReady, placed-IsReady}
use myreflection.Api.Linking.Chains.{Chain, remove-of_not, Threads, unlink_from-Unlinked}

-- One input at most.
abbrev pub IsSingle : List ℕ → Type 0
IsSingle [] = Unit
IsSingle (x ∷ []) = Unit
IsSingle (x ∷ y ∷ ys) = ⊥

-- Each rule stands once in the chain of its input and in no other, and a rule that has been created
-- under its type has no use for `ref_rule`.
pub record IsChained (l : Links) (chain : ℕ → List ℕ) : Type 0 where
  pub threads : Threads l chain
  pub distinct : (o : ℕ) → Distinct (chain o)
  pub listed : (o r : ℕ) → has r (chain o) ≡ has o (l.inputs r)
  pub single : (r : ℕ) → IsSingle (l.inputs r)
  pub feeding : (o r : ℕ) → has o (l.inputs r) ≡ true → feeds_rules (l.kind o) ≡ true
  pub taking : (o r : ℕ) → has o (l.inputs r) ≡ true → l.kind r ≡ rule
  pub created : (r : ℕ) → l.kind r ≡ rule → l.ref_rule r ≡ none

-- The rule at the head of the input's chain, and nowhere else.
unfoldable pub moved : (ℕ → List ℕ) → (rule input : ℕ) → ℕ → List ℕ
moved chain r i = update (λ o. remove r (chain o)) i (r ∷ remove r (chain i))

moved-Distinct :
    (chain : ℕ → List ℕ) (r i o : ℕ) → ((x : ℕ) → Distinct (chain x)) → Distinct (moved chain r i o)
unfolding moved
moved-Distinct chain r i o d =
    if-holds Distinct (o == i) (r ∷ remove r (chain i)) (remove r (chain o))
      (has-remove_self r (chain i) (d i), Distinct-remove r (chain i) (d i))
      (Distinct-remove r (chain o) (d o))

moved-has :
    (chain : ℕ → List ℕ) (r i o x : ℕ)
    → ((y : ℕ) → Distinct (chain y))
    → has x (moved chain r i o) ≡ (if x == r then i == o else has x (chain o))
unfolding moved has
moved-has chain r i o x d = ground (
  arith,
  has-remove_self r (chain o) (d o),
  has-remove_self r (chain i) (d i),
  has-remove_ne x r (chain o),
  has-remove_ne x r (chain i),
)

pub single-other :
    (xs : List ℕ) (o o' : ℕ) → IsSingle xs → has o xs ≡ true → o' ≢ o → has o' xs ≡ false
unfolding has
single-other [] o o' s h ne = cc
single-other (x ∷ []) o o' s h ne = ground (arith, h)
single-other (x ∷ y ∷ ys) o o' s h ne = absurd s

module _ (fuel r : ℕ) (l : Links) (chain : ℕ → List ℕ) (v : IsChained l chain)
    (deep : (o : ℕ) → length (chain o) ≤ fuel) where
  -- The rule has left the chain that it was in.
  record Left (l1 : Links) : Type 0 where
    left : unlink_inputs fuel r (l.inputs r) l ≡ some l1
    threads : Threads l1 (λ o. remove r (chain o))
    kind : l1.kind ≡ l.kind
    inputs : l1.inputs ≡ l.inputs
    ref_rule : (x : ℕ) → l.kind x ≡ rule → l1.ref_rule x ≡ none

  remove-others : (o : ℕ) → has o (l.inputs r) ≡ false → remove r (chain o) ≡ chain o
  remove-others o out = remove-of_not r (chain o) (v.listed o r ∙ out)

  only_left :
      (o x : ℕ) → l.inputs r ≡ o ∷ [] → update chain o (remove r (chain o)) x ≡ remove r (chain x)
  unfolding has
  only_left o x e = elim (Bool-cases (x == o)) [
    | inl at ↦ rw at (ap (λ y. remove r (chain y)) (sym ((==_iff x o).0 at)))
    | inr other ↦ rw other (sym (remove-others x (rw e (ground (arith, other)))))
  ]

  inputs-Left : (is : List ℕ) → l.inputs r ≡ is → (l1 : Links) × Left l1
  unfolding unlink_inputs has
  inputs-Left [] e = (
    l,
    record {
      left = rw e refl;
      threads = λ o.
          subst (λ xs. Chain l.next_in_input (head_output_rule l o) xs)
            (sym (remove-others o (rw e refl))) (v.threads o);
      kind = refl;
      inputs = refl;
      ref_rule = v.created;
    },
  )
  inputs-Left (o ∷ []) e =
      let feeds = v.feeding o r (rw e (ground arith)) in
      let (l1, u) =
        unlink_from-Unlinked fuel r o l chain v.threads (v.distinct o)
          (λ x o' ne m.
            v.listed o' x ∙ single-other (l.inputs x) o o' (v.single x) (sym (v.listed o x) ∙ m) ne)
          feeds (deep o) in
      let left : unlink_inputs fuel r (l.inputs r) l ≡ some l1 = rw e (rw u.unlinking refl) in
      (
        l1,
        record {
          left = left;
          threads = λ x.
              subst (λ xs. Chain l1.next_in_input (head_output_rule l1 x) xs) (only_left o x e)
                (u.threads x);
          kind = u.kind;
          inputs = (unlink_inputs-SameInputs fuel r (l.inputs r) l l1 left).inputs;
          ref_rule = λ x is. u.ref_rule x is ∙ v.created x is;
        },
      )
  inputs-Left (x ∷ y ∷ ys) e = absurd (subst IsSingle e (v.single r))

-- How the outcome of a creation relates to the links before it.
abbrev pub Files : (rule input : ℕ) → Links → (ℕ → List ℕ) → Outcome → Type 0
Files r i l chain (refused l') = l' ≡ l
Files r i l chain (deleting q l') = q ≡ r
Files r i l chain (done l') = IsChained l' (moved chain r i)
Files r i l chain stuck = ⊥

module _ (fuel r i : ℕ) (l : Links) (chain : ℕ → List ℕ) (v : IsChained l chain)
    (deep : (o : ℕ) → length (chain o) ≤ fuel) (is_rule_r : l.kind r ≡ rule)
    (feeds : feeds_rules (l.kind i) ≡ true) where
  absent : (o : ℕ) → has r (remove r (chain o)) ≡ false
  absent o = has-remove_self r (chain o) (v.distinct o)

  placed-IsChained :
      (u : Links) (c : ℕ)
      → Left fuel r l chain v deep u
      → IsChained (placed r i c u) (moved chain r i)
  unfolding moved has
  placed-IsChained u c left =
      let chain1 = λ (o : ℕ). remove r (chain o) in
      let start : IsReady u chain1 = record {
        threads = left.threads;
        created = λ x is. left.ref_rule x (sym (ap (λ f. f x) left.kind) ∙ is);
      } in
      let ready =
        placed-IsReady r i c u chain1 start absent (ap (λ f. f r) left.kind ∙ is_rule_r)
          (ap (λ k. feeds_rules (k i)) left.kind ∙ feeds) in
      let kind = placed-kind r i c u ∙ left.kind in
      let inputs : (x : ℕ) → (placed r i c u).inputs x ≡ (if x == r then i ∷ [] else l.inputs x) =
        λ x. placed-inputs r i c u x ∙ ground (arith, ap (λ f. f x) left.inputs) in
      record {
        threads = ready.threads;
        distinct = λ o. moved-Distinct chain r i o v.distinct;
        listed = λ o x.
            moved-has chain r i o x v.distinct
            ∙ ground (arith, v.listed o x, ap (has o) (inputs x));
        single = λ x.
            subst IsSingle (sym (inputs x))
              (if-holds IsSingle (x == r) (i ∷ []) (l.inputs x) tt (v.single x));
        feeding = λ o x m.
            ap (λ k. feeds_rules (k o)) kind
            ∙ ground (arith, v.feeding o x, ap (has o) (inputs x), m, feeds);
        taking = λ o x m.
            ap (λ k. k x) kind ∙ ground (arith, v.taking o x, ap (has o) (inputs x), m, is_rule_r);
        created = ready.created;
      }

  create_with_action-Files :
      (l1 : Links) (a : Named)
      → Left fuel r l chain v deep l1
      → Files r i l chain (create_with_action r i a (pop_inputs r (l1.inputs r) l1))
  unfolding create_with_action
  create_with_action-Files l1 (object c) left = placed-IsChained l1 c left
  create_with_action-Files l1 bad_name left = refl
  create_with_action-Files l1 no_object left = refl

  unlinked-Files :
      (a : Named) → Files r i l chain (create_unlinked r i a (unlink_inputs fuel r (l.inputs r) l))
  unfolding create_unlinked
  unlinked-Files a =
      let (l1, left) = inputs-Left fuel r l chain v deep (l.inputs r) refl in
      rw left.left (create_with_action-Files l1 a left)

module _ (fuel r i : ℕ) (l : Links) (chain : ℕ → List ℕ) where
  create_checked-Files :
      (a : Named)
      → IsChained l chain
      → ((o : ℕ) → length (chain o) ≤ fuel)
      → l.kind r ≡ rule
      → Files r i l chain (create_checked fuel r i a l)
  unfolding create_checked
  create_checked-Files a v deep is =
      let twice = rule_input_search rule_depth_limit (inputs_of l) i r in
      let loops = rule_input_search rule_depth_limit (inputs_of l) r i in
      elim (Bool-cases (feeds_rules (l.kind i))) [
        | inl feeds ↦ rw feeds (
            if-holds (Files r i l chain) twice (refused l) _ refl (
              if-holds (Files r i l chain) loops (deleting r l)
                (create_unlinked r i a (unlink_inputs fuel r (l.inputs r) l)) refl
                (unlinked-Files fuel r i l chain v deep is feeds a)))
        | inr silent ↦ rw silent refl
      ]

module _ (fuel r i : ℕ) (a : Named) (l : Links) (chain : ℕ → List ℕ) where
  -- Where the chains agree with the inputs and each rule has one input at most, and with fuel for the
  -- longest chain, a call of myrefl_rule_create for a rule and an input returns: it changes nothing,
  -- or it deletes the rule, or the chains agree with the inputs again, with the rule taken out of the
  -- chain that it was in and put at the head of its new input's.
  pub rule_create-Files :
      IsChained l chain
      → ((o : ℕ) → length (chain o) ≤ fuel)
      → l.kind r ≡ rule
      → Files r i l chain (rule_create fuel (object r) (object i) a l)
  unfolding rule_create create_named
  rule_create-Files v deep is =
      if-holds (Files r i l chain) (is_bad a) (refused l) (create_checked fuel r i a l) refl
        (create_checked-Files fuel r i l chain a v deep is)
