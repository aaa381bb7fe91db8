-- ===== src/Api/Linking/AddInput.antt =====
-- A second input (`myrefl_rule_add_input` of src/myrefl_api.c): a rule has one `next_in_input`, and
-- the call overwrites it.
use myreflection.Common.{
  ℕ, ◌≡◌, sym, ◌≢◌, ◌∙◌, ap, subst, true, false, Option, some, List, [], ◌∷◌, ◌++◌, arith, has,
  has-append, Distinct, update,
}
use myreflection.Api.Linking.{
  Links, feeds_rules, head_output_rule, set_head_output_rule, object, done, rule_add_input,
  link_input,
}
use myreflection.Rci.Depend.{list_add}
use myreflection.Api.Linking.Acyclic.{added_by, link_input-Linked}
use myreflection.Api.Linking.Chains.{Chain, Chain-cong, head-set_head, set_head-OneHead}
use myreflection.Api.Linking.Placed.{other_than}
use myreflection.Api.Linking.Filed.{IsChained, single-other}

-- A chain up to a rule, and another chain behind it.
Chain-splice :
    (next : ℕ → Option ℕ) (p head : Option ℕ) (r : ℕ) (pre es cs : List ℕ)
    → Distinct (pre ++ r ∷ es)
    → Chain next p (pre ++ r ∷ es)
    → Chain (update next r head) head cs
    → Chain (update next r head) p (pre ++ r ∷ cs)
unfolding has
Chain-splice next p head r [] es cs d c behind =
    (c.0, subst (λ q. Chain (update next r head) q cs) (ground arith) behind)
Chain-splice next p head r (x ∷ pre) es cs d c behind =
    let apart : update next r head x ≡ next x = ground (arith, d.0, has-append x pre (r ∷ es)) in
    (
      c.0,
      subst (λ q. Chain (update next r head) q (pre ++ r ∷ cs)) (sym apart)
          (Chain-splice next (next x) head r pre es cs d.1 c.1 behind),
    )

module _ (r i o : ℕ) (pre es : List ℕ) (l : Links) (chain : ℕ → List ℕ) (v : IsChained l chain)
    (other : i ≢ o) (at : chain o ≡ pre ++ r ∷ es) (feeds : feeds_rules (l.kind i) ≡ true) where
  spliced :
      Chain
        (link_input r i l).next_in_input
        (head_output_rule (link_input r i l) o)
        (pre ++ r ∷ chain i)
  unfolding link_input head_output_rule has
  spliced =
      let head = head_output_rule l i in
      let next' = update l.next_in_input r head in
      let added = record l {
        inputs = update l.inputs r (list_add i (l.inputs r));
        next_in_input = next';
      } in
      let linked = set_head_output_rule i (some r) added in
      let next_same = (set_head-OneHead i (some r) added).next in
      let head_same : head_output_rule linked o ≡ head_output_rule l o =
        head-set_head i o (some r) added feeds ∙ ground (arith, other) in
      let in_first : has r (chain o) ≡ true = rw at (ground (arith, has-append r pre (r ∷ es))) in
      let input : has o (l.inputs r) ≡ true = sym (v.listed o r) ∙ in_first in
      let out : has r (chain i) ≡ false =
        v.listed i r ∙ single-other (l.inputs r) o i (v.single r) input other in
      let behind : Chain next' head (chain i) =
        Chain-cong l.next_in_input next' head (chain i)
          (λ x m. let ne = other_than r x (chain i) out m in ground (arith, ne)) (v.threads i) in
      let threads : Chain l.next_in_input (head_output_rule l o) (pre ++ r ∷ es) =
        subst (λ xs. Chain l.next_in_input (head_output_rule l o) xs) at (v.threads o) in
      let once = subst Distinct at (v.distinct o) in
      rw feeds (
        subst (λ next. Chain next (head_output_rule linked o) (pre ++ r ∷ chain i)) (sym next_same)
          (subst (λ q. Chain next' q (pre ++ r ∷ chain i)) (sym head_same)
            (Chain-splice l.next_in_input (head_output_rule l o) head r pre es (chain i) once
              threads behind)))

-- Where the chains agree with the inputs, and a rule in the chain of one input gets another one by
-- a completed call of myrefl_rule_add_input, the walk along the first input's chain leads through the
-- rules before this rule, the rule, and then through the second input's chain: the rules that stood
-- behind it are out of the walk, although they keep their inputs.
pub rule_add_input-cuts-Chain :
    (r i o : ℕ) (pre es : List ℕ) (l l' : Links) (chain : ℕ → List ℕ)
    → IsChained l chain
    → i ≢ o
    → chain o ≡ pre ++ r ∷ es
    → rule_add_input (object r) (object i) l ≡ done l'
    → Chain l'.next_in_input (head_output_rule l' o) (pre ++ r ∷ chain i)
      × ((q : ℕ) → has q es ≡ true → has o (l'.inputs q) ≡ true)
unfolding has
rule_add_input-cuts-Chain r i o pre es l l' chain v other at e =
    let (feeds, no_loop, result) = added_by r i l l' e in
    let k = link_input-Linked r i l in
    (
      subst (λ m. Chain m.next_in_input (head_output_rule m o) (pre ++ r ∷ chain i)) (sym result)
          (spliced r i o pre es l chain v other at feeds),
      λ q m.
          let behind : has q (chain o) ≡ true =
            rw at (ground (arith, m, has-append q pre (r ∷ es))) in
          let had = sym (v.listed o q) ∙ behind in
          ground (arith, had, ap (λ f. has o (f.inputs q)) result, ap (has o) (k.inputs q)),
    )
