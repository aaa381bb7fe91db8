-- ===== src/Api/Linking/Acyclic.antt =====
-- Linking (`myrefl_rule_create` and `myrefl_rule_add_input` of src/myrefl_api.c) makes no loop,
-- except of a rule with itself.
use myreflection.Common.{
  ℕ, suc, ◌+◌, ◌≤◌, ◌≡◌, refl, sym, ◌≢◌, ◌∙◌, inl, inr, ap, true, false, some, List, [], ◌∷◌, arith,
  ◌==◌, has, update, if◌then◌else◌, Bool-cases,
}
use myreflection.Types.{rule}
use myreflection.Rci.Depend.{list_add}
use myreflection.Rci.Depend.Search.{IsRanked}
use myreflection.Rci.Depend.Acyclic.{with_edge, new_rank, new_rank-le, IsRanked-with_edge}
use myreflection.Api.Linking.{
  Links, feeds_rules, head_output_rule, inputs_of, rule_input_search, rule_depth_limit, link_input,
  add_action, finish, pop_inputs, Named, object, done, rule_create, add_input_named, rule_add_input,
}
use myreflection.Api.Linking.Search.{search-excludes}
use myreflection.Api.Linking.Fields.{
  set_head-SameInputs, unlink_inputs-SameInputs, pop_inputs-Popped, Created, rule_create-Created,
  done_injective,
}

-- The rule has the input besides what it had, and its type.
pub record Linked (r o : ℕ) (l l' : Links) : Type 0 where
  pub kind : l'.kind ≡ l.kind
  pub inputs : (x : ℕ) → l'.inputs x ≡ (if x == r then list_add o (l.inputs r) else l.inputs x)

pub link_input-Linked : (r o : ℕ) (l : Links) → Linked r o l (link_input r o l)
unfolding link_input
link_input-Linked r o l = elim (Bool-cases (feeds_rules (l.kind o))) [
  | inl feeds ↦
      let s = set_head-SameInputs o (some r) (record l {
        inputs = update l.inputs r (list_add o (l.inputs r));
        next_in_input = update l.next_in_input r (head_output_rule l o);
      }) in
      rw feeds (record { kind = s.kind; inputs = λ x. ap (λ f. f x) s.inputs })
  | inr silent ↦ rw silent (record { kind = refl; inputs = λ x. refl })
]

-- The links when a rule, taken off its old input's chain, has its new input and action.
abbrev pub placed : (rule input action : ℕ) → Links → Links
placed r i c u = finish r (link_input r i (add_action r c (pop_inputs r (u.inputs r) u)))

pub placed-inputs :
    (r i c : ℕ) (u : Links) (x : ℕ)
    → (placed r i c u).inputs x ≡ (if x == r then i ∷ [] else u.inputs x)
unfolding finish add_action has
placed-inputs r i c u x =
    let p = pop_inputs-Popped r (u.inputs r) u refl in
    let k = link_input-Linked r i (add_action r c (pop_inputs r (u.inputs r) u)) in
    k.inputs x ∙ ground (arith, p.inputs x, p.inputs r)

pub placed-kind : (r i c : ℕ) (u : Links) → (placed r i c u).kind ≡ u.kind
unfolding finish add_action
placed-kind r i c u =
    let p = pop_inputs-Popped r (u.inputs r) u refl in
    let k = link_input-Linked r i (add_action r c (pop_inputs r (u.inputs r) u)) in k.kind ∙ p.kind

-- A rule that has been created has one input.
Created-inputs :
    (fuel r i : ℕ) (l l' : Links)
    → Created fuel r i l l'
    → (x : ℕ) → l'.inputs x ≡ (if x == r then i ∷ [] else l.inputs x)
Created-inputs fuel r i l l' c x =
    let s = unlink_inputs-SameInputs fuel r (l.inputs r) l c.unlinked c.unlinking in
    ap (λ f. f.inputs x) c.result
    ∙ placed-inputs r i c.chosen c.unlinked x
    ∙ ground (arith, ap (λ f. f x) s.inputs)

Created-kind : (fuel r i : ℕ) (l l' : Links) → Created fuel r i l l' → l'.kind ≡ l.kind
Created-kind fuel r i l l' c =
    let s = unlink_inputs-SameInputs fuel r (l.inputs r) l c.unlinked c.unlinking in
    ap (λ f. f.kind) c.result ∙ placed-kind r i c.chosen c.unlinked ∙ s.kind

IsRanked-fewer :
    (children children' : ℕ → List ℕ) (rank : ℕ → ℕ)
    → IsRanked children rank
    → ((a b : ℕ) → has b (children' a) ≡ true → has b (children a) ≡ true)
    → IsRanked children' rank
IsRanked-fewer children children' rank h sub a b m = h a b (sub a b m)

-- A rank for the inputs after a link, above nothing by more than the rank of the input.
abbrev pub Reranked : (ℕ → ℕ) → (input : ℕ) → Links → Type 0
Reranked rank i l =
    (rank' : ℕ → ℕ) × IsRanked (inputs_of l) rank' × ((x : ℕ) → rank' x ≤ rank x + suc (rank i))

module _ (l l' : Links) (rank : ℕ → ℕ) (ranked : IsRanked (inputs_of l) rank) (r i : ℕ)
    (is_rule_r : l.kind r ≡ rule) (other : i ≢ r)
    (no_loop : rule_input_search rule_depth_limit (inputs_of l) r i ≡ false) where
  reranked :
      ((a b : ℕ) → has b (inputs_of l' a) ≡ true → has b (with_edge (inputs_of l) r i a) ≡ true)
      → Reranked rank i l'
  reranked sub =
      let no_path = search-excludes (inputs_of l) r rule_depth_limit i no_loop other in
      (
        new_rank (inputs_of l) rank ranked r i no_path,
        IsRanked-fewer (with_edge (inputs_of l) r i) (inputs_of l') _
            (IsRanked-with_edge (inputs_of l) rank ranked r i no_path) sub,
        new_rank-le (inputs_of l) rank ranked r i no_path,
      )

  added-Reranked :
      l'.kind ≡ l.kind
      → ((x : ℕ) → l'.inputs x ≡ (if x == r then list_add i (l.inputs r) else l.inputs x))
      → Reranked rank i l'
  unfolding has
  added-Reranked k e =
      reranked (λ a b m. ground (arith, ap (λ f. f a) k, ap (λ f. f r) k, e a, is_rule_r, m))

  only-Reranked :
      l'.kind ≡ l.kind
      → ((x : ℕ) → l'.inputs x ≡ (if x == r then i ∷ [] else l.inputs x))
      → Reranked rank i l'
  unfolding has
  only-Reranked k e =
      reranked (λ a b m. ground (arith, ap (λ f. f a) k, ap (λ f. f r) k, e a, is_rule_r, m))

-- A rank for the inputs in which a call's links have no loop.
pub rule_create-Reranked :
    (fuel r i : ℕ) (a : Named) (l l' : Links) (rank : ℕ → ℕ)
    → IsRanked (inputs_of l) rank
    → l.kind r ≡ rule
    → i ≢ r
    → rule_create fuel (object r) (object i) a l ≡ done l'
    → Reranked rank i l'
rule_create-Reranked fuel r i a l l' rank ranked is other e =
    let c = rule_create-Created fuel r i a l l' e in
    only-Reranked l l' rank ranked r i is other c.no_loop (Created-kind fuel r i l l' c)
      (Created-inputs fuel r i l l' c)

pub added_by :
    (r i : ℕ) (l l' : Links)
    → rule_add_input (object r) (object i) l ≡ done l'
    → (feeds_rules (l.kind i) ≡ true)
      × (rule_input_search rule_depth_limit (inputs_of l) r i ≡ false)
      × (l' ≡ link_input r i l)
unfolding rule_add_input add_input_named
added_by r i l l' e =
    (ground (arith, e), ground (arith, e), sym (done_injective _ l' (ground (arith, e))))

pub rule_add_input-Reranked :
    (r i : ℕ) (l l' : Links) (rank : ℕ → ℕ)
    → IsRanked (inputs_of l) rank
    → l.kind r ≡ rule
    → i ≢ r
    → rule_add_input (object r) (object i) l ≡ done l'
    → Reranked rank i l'
rule_add_input-Reranked r i l l' rank ranked is other e =
    let (feeds, no_loop, result) = added_by r i l l' e in
    let k = link_input-Linked r i l in
    added-Reranked l l' rank ranked r i is other no_loop (ap (λ f. f.kind) result ∙ k.kind)
      (λ x. ap (λ f. f.inputs x) result ∙ k.inputs x)
