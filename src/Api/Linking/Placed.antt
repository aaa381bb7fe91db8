-- ===== src/Api/Linking/Placed.antt =====
-- The end of `myrefl_rule_create` (src/myrefl_api.c): a rule that is in no chain loses its old
-- inputs and is put at the head of its input's chain.
use myreflection.Common.{
  ℕ, ◌≡◌, refl, sym, ◌≢◌, ◌∙◌, ap, subst, true, false, some, none, List, ◌∷◌, arith, has, update,
}
use myreflection.Types.{rule}
use myreflection.Api.Linking.{
  Links, feeds_rules, head_for, head_output_rule, pop_inputs, link_input, add_action, finish,
}
use myreflection.Rci.Depend.{list_add}
use myreflection.Api.Linking.Fields.{pop_inputs-Popped}
use myreflection.Api.Linking.Acyclic.{link_input-Linked, placed}
use myreflection.Api.Linking.Chains.{Chain, Chain-cong, Threads, set_head-Threads, set_head-OneHead}

-- What a rule's placing needs of the links, and keeps.
pub record IsReady (l : Links) (chain : ℕ → List ℕ) : Type 0 where
  pub threads : Threads l chain
  pub created : (x : ℕ) → l.kind x ≡ rule → l.ref_rule x ≡ none

pub other_than : (r x : ℕ) (es : List ℕ) → has r es ≡ false → has x es ≡ true → x ≢ r
other_than r x es out m e = let n = subst (λ y. has y es ≡ true) e m in absurd (cc)

module _ (r : ℕ) (l : Links) (chain : ℕ → List ℕ) (ready : IsReady l chain)
    (absent : (o : ℕ) → has r (chain o) ≡ false) where
  pub pop_inputs-IsReady : IsReady (pop_inputs r (l.inputs r) l) chain
  unfolding head_output_rule
  pop_inputs-IsReady =
      let p = pop_inputs-Popped r (l.inputs r) l refl in
      record {
        threads = λ o.
            subst (λ q. Chain (pop_inputs r (l.inputs r) l).next_in_input q (chain o))
              (sym (λ j. head_for (p.kind j o) (p.test_rule j o) (p.output j o) (p.ref_rule j o)))
              (Chain-cong l.next_in_input _ (head_output_rule l o) (chain o)
                (λ x m.
                  let ne = other_than r x (chain o) (absent o) m in ground (arith, p.next x, ne))
                (ready.threads o));
        created =
            λ x is. ap (λ f. f x) p.ref_rule ∙ ready.created x (sym (ap (λ f. f x) p.kind) ∙ is);
      }

  pub link_input-IsReady :
      (i : ℕ)
      → feeds_rules (l.kind i) ≡ true
      → IsReady (link_input r i l) (update chain i (r ∷ chain i))
  unfolding link_input head_output_rule
  link_input-IsReady i feeds =
      let next' = update l.next_in_input r (head_output_rule l i) in
      let at = λ (o : ℕ).
        Chain-cong l.next_in_input next' (head_output_rule l o) (chain o)
          (λ x m. let ne = other_than r x (chain o) (absent o) m in ground (arith, ne))
          (ready.threads o) in
      let added = record l {
        inputs = update l.inputs r (list_add i (l.inputs r));
        next_in_input = next';
      } in
      let s = set_head-OneHead i (some r) added in
      let first : next' r ≡ head_output_rule l i = ground arith in
      rw feeds (record {
        threads =
            set_head-Threads i (some r) (r ∷ chain i) added chain feeds
              (refl, subst (λ q. Chain next' q (chain i)) (sym first) (at i)) (λ x ne. at x);
        created = λ x is.
            let was = sym (ap (λ f. f x) s.kind) ∙ is in s.ref_rule x was ∙ ready.created x was;
      })

add_action-IsReady :
    (r c : ℕ) (l : Links) (chain : ℕ → List ℕ) → IsReady l chain → IsReady (add_action r c l) chain
unfolding add_action head_output_rule
add_action-IsReady r c l chain ready = record { threads = ready.threads; created = ready.created }

-- The end of the call writes no pointer of a rule that had no forward reference.
pub finish-IsReady :
    (r : ℕ) (l : Links) (chain : ℕ → List ℕ)
    → IsReady l chain
    → l.kind r ≡ rule
    → IsReady (finish r l) chain
unfolding finish head_output_rule
finish-IsReady r l chain ready is =
    let none_yet = ready.created r is in
    record { threads = λ o. rw none_yet (ready.threads o); created = ready.created }

pub placed-IsReady :
    (r i c : ℕ) (u : Links) (chain : ℕ → List ℕ)
    → IsReady u chain
    → ((o : ℕ) → has r (chain o) ≡ false)
    → u.kind r ≡ rule
    → feeds_rules (u.kind i) ≡ true
    → IsReady (placed r i c u) (update chain i (r ∷ chain i))
unfolding add_action
placed-IsReady r i c u chain ready absent is feeds =
    let popped = pop_inputs r (u.inputs r) u in
    let p = pop_inputs-IsReady r u chain ready absent in
    let k = (pop_inputs-Popped r (u.inputs r) u refl).kind in
    finish-IsReady r _ _
      (link_input-IsReady r (add_action r c popped) chain (add_action-IsReady r c popped chain p)
        absent i (ap (λ f. feeds_rules (f i)) k ∙ feeds))
      ((λ j. (link_input-Linked r i (add_action r c popped)).kind j r) ∙ (λ j. k j r) ∙ is)
