-- ===== src/Api/Linking/Chains.antt =====
-- Chains of rules through `next_in_input`, and how `myrefl_rule_create` (src/myrefl_api.c) takes a
-- rule off one chain and puts it at the head of another.
use myreflection.Common.{
  ℕ, zero, suc, ◌≤◌, ◌≡◌, refl, sym, ◌≢◌, ◌∙◌, inl, inr, ap, subst, Bool, true, false, Option, some,
  none, List, [], ◌∷◌, arith, ◌==◌, ==_iff, has, remove, Distinct, length, update, if◌then◌else◌,
  Bool-cases,
}
use myreflection.Types.{ObjType, rule}
use myreflection.Api.Linking.{
  Links, feeds_rules, with_head, head_output_rule, set_head_output_rule, unlink_walk, unlink_from,
}

-- From this pointer, the next pointers lead through these rules to NULL.
abbrev pub Chain : (ℕ → Option ℕ) → Option ℕ → List ℕ → Type 0
Chain next p [] = p ≡ none
Chain next p (a ∷ es) = (p ≡ some a) × Chain next (next a) es

pub Chain-cong :
    (next next' : ℕ → Option ℕ) (p : Option ℕ) (es : List ℕ)
    → ((x : ℕ) → has x es ≡ true → next' x ≡ next x)
    → Chain next p es
    → Chain next' p es
unfolding has
Chain-cong next next' p [] same c = c
Chain-cong next next' p (a ∷ es) same c = (
  c.0,
  subst (λ q. Chain next' q es) (sym (same a (ground arith)))
      (Chain-cong next next' (next a) es (λ x m. same x (ground (arith, m))) c.1),
)

pub remove-of_not : (a : ℕ) (xs : List ℕ) → has a xs ≡ false → remove a xs ≡ xs
unfolding has remove
remove-of_not a [] h = refl
remove-of_not a (x ∷ xs) h = ground (arith, remove-of_not a xs)

-- The walk takes the rule off the chain, and writes only within the chain.
pub unlink_walk_lem :
    (fuel r q : ℕ) (next : ℕ → Option ℕ) (es : List ℕ)
    → Chain next (next q) es
    → Distinct (q ∷ es)
    → q ≢ r
    → length es ≤ fuel
    → (next' : ℕ → Option ℕ) × (unlink_walk (suc fuel) r (some q) next ≡ some next')
      × Chain next' (next' q) (remove r es)
      × ((x : ℕ) → has x (q ∷ es) ≡ false → next' x ≡ next x)
unfolding unlink_walk has remove
unlink_walk_lem fuel r q next [] c d ne k = (next, ground arith, c, λ x h. refl)
unlink_walk_lem zero r q next (b ∷ bs) c d ne k = absurd (omega (arith, k))
unlink_walk_lem (suc fuel) r q next (b ∷ bs) c d ne k = elim (Bool-cases (b == r)) [
  | inl hit ↦ (
    update next q (next r),
    ground (arith, c.0, hit),
    rw hit (
        subst (λ p. Chain (update next q (next r)) p bs)
          (ground (arith, ap next ((==_iff b r).0 hit)))
          (Chain-cong next (update next q (next r)) (next b) bs (λ x m. ground (arith, m, d.0))
            c.1)),
    λ x h. ground (arith, h),
  )
  | inr miss ↦
      let (next', e, rest, same) =
        unlink_walk_lem fuel r b next bs c.1 d.1 (ground (arith, miss)) (omega (arith, k)) in
      (
        next',
        ground (arith, c.0, miss, e),
        rw miss ((same q d.0 ∙ c.0, rest)),
        λ x h. same x (ground (arith, h)),
      )
]

-- Every object's chain of rules.
abbrev pub Threads : Links → (ℕ → List ℕ) → Type 0
Threads l chain = (o : ℕ) → Chain l.next_in_input (head_output_rule l o) (chain o)

pub head-set_head :
    (o o' : ℕ) (v : Option ℕ) (l : Links)
    → feeds_rules (l.kind o) ≡ true
    → head_output_rule (set_head_output_rule o v l) o'
      ≡ (if o' == o then v else head_output_rule l o')
unfolding head_output_rule set_head_output_rule
head-set_head o o' v l h = ground (arith, h)

-- A write to a head leaves the types, the next pointers, and what rules hold in `ref_rule`.
pub record OneHead (l l' : Links) : Type 0 where
  pub kind : l'.kind ≡ l.kind
  pub next : l'.next_in_input ≡ l.next_in_input
  pub ref_rule : (x : ℕ) → l.kind x ≡ rule → l'.ref_rule x ≡ l.ref_rule x

with_head-OneHead :
    (k : ObjType) (o : ℕ) (v : Option ℕ) (l : Links) → l.kind o ≡ k → OneHead l (with_head k o v l)
with_head-OneHead ObjType.none o v l e = record {
  kind = refl;
  next = refl;
  ref_rule = λ x is. ground (arith, e, is);
}
with_head-OneHead ObjType.any o v l e = record { kind = refl; next = refl; ref_rule = λ x is. refl }
with_head-OneHead ObjType.test o v l e = record {
  kind = refl;
  next = refl;
  ref_rule = λ x is. refl;
}
with_head-OneHead ObjType.rule o v l e = record {
  kind = refl;
  next = refl;
  ref_rule = λ x is. refl;
}
with_head-OneHead ObjType.action o v l e = record {
  kind = refl;
  next = refl;
  ref_rule = λ x is. refl;
}
with_head-OneHead ObjType.comp o v l e = record {
  kind = refl;
  next = refl;
  ref_rule = λ x is. refl;
}

pub set_head-OneHead : (o : ℕ) (v : Option ℕ) (l : Links) → OneHead l (set_head_output_rule o v l)
unfolding set_head_output_rule
set_head-OneHead o v l = with_head-OneHead (l.kind o) o v l refl

Chain-if :
    (next : ℕ → Option ℕ) (b : Bool) (p p' : Option ℕ) (es es' : List ℕ)
    → Chain next p es
    → Chain next p' es'
    → Chain next (if b then p else p') (if b then es else es')
Chain-if next true p p' es es' c c' = c
Chain-if next false p p' es es' c c' = c'

-- One head and its chain are new, on the same next pointers.
pub set_head-Threads :
    (o : ℕ) (v : Option ℕ) (es : List ℕ) (l : Links) (chain : ℕ → List ℕ)
    → feeds_rules (l.kind o) ≡ true
    → Chain l.next_in_input v es
    → ((x : ℕ) → x ≢ o → Chain l.next_in_input (head_output_rule l x) (chain x))
    → Threads (set_head_output_rule o v l) (update chain o es)
set_head-Threads o v es l chain feeds c others x =
    let l' = set_head_output_rule o v l in
    let s = set_head-OneHead o v l in
    subst (λ next. Chain next (head_output_rule l' x) (update chain o es x)) (sym s.next)
      (subst (λ p. Chain l.next_in_input p (update chain o es x))
        (sym (head-set_head o x v l feeds))
        (elim (Bool-cases (x == o)) [
          | inl same ↦ rw same c
          | inr other ↦ rw other (others x (ground (arith, other)))
        ]))

unlink_walk_enough :
    (fuel r q : ℕ) (next : ℕ → Option ℕ) (es : List ℕ)
    → Chain next (next q) es
    → Distinct (q ∷ es)
    → q ≢ r
    → suc (length es) ≤ fuel
    → (next' : ℕ → Option ℕ) × (unlink_walk fuel r (some q) next ≡ some next')
      × Chain next' (next' q) (remove r es)
      × ((x : ℕ) → has x (q ∷ es) ≡ false → next' x ≡ next x)
unlink_walk_enough zero r q next es c d ne k = absurd (omega (arith, k))
unlink_walk_enough (suc fuel) r q next es c d ne k =
    unlink_walk_lem fuel r q next es c d ne (omega (arith, k))

-- The rule has left the input's chain; the other chains and the types are as they were.
pub record Unlinked (fuel r o : ℕ) (l : Links) (chain : ℕ → List ℕ) (l' : Links) : Type 0 where
  pub unlinking : unlink_from fuel r o l ≡ some l'
  pub threads : Threads l' (update chain o (remove r (chain o)))
  pub kind : l'.kind ≡ l.kind
  pub ref_rule : (x : ℕ) → l.kind x ≡ rule → l'.ref_rule x ≡ l.ref_rule x

module _ (fuel r o : ℕ) (l : Links) (chain : ℕ → List ℕ) (threads : Threads l chain)
    (once : Distinct (chain o))
    (apart : (x o' : ℕ) → o' ≢ o → has x (chain o) ≡ true → has x (chain o') ≡ false)
    (feeds : feeds_rules (l.kind o) ≡ true) (deep : length (chain o) ≤ fuel) where
  thread_of : (es : List ℕ) → chain o ≡ es → Chain l.next_in_input (head_output_rule l o) es
  thread_of es e = subst (λ xs. Chain l.next_in_input (head_output_rule l o) xs) e (threads o)

  unlink_first : (es : List ℕ) → chain o ≡ r ∷ es → (l' : Links) × Unlinked fuel r o l chain l'
  unfolding unlink_from remove
  unlink_first es e =
      let c = thread_of (r ∷ es) e in
      let s = set_head-OneHead o (l.next_in_input r) l in
      let gone : es ≡ remove r (chain o) = ground (arith, e) in
      (
        set_head_output_rule o (l.next_in_input r) l,
        record {
          unlinking = ground (arith, feeds, c.0);
          threads =
              set_head-Threads o (l.next_in_input r) (remove r (chain o)) l chain feeds
                (subst (λ xs. Chain l.next_in_input (l.next_in_input r) xs) gone c.1)
                (λ x ne. threads x);
          kind = s.kind;
          ref_rule = s.ref_rule;
        },
      )

  outside :
      (y x q : ℕ) (es : List ℕ)
      → chain o ≡ q ∷ es
      → x ≢ o
      → has y (chain x) ≡ true
      → has y (q ∷ es) ≡ false
  outside y x q es e ne m = elim (Bool-cases (has y (chain o))) [
    | inl inside ↦ absurd (let alone = apart y x ne inside in cc)
    | inr out ↦ subst (λ xs. has y xs ≡ false) e out
  ]

  walked-Threads :
      (q : ℕ) (es : List ℕ) (next' : ℕ → Option ℕ)
      → chain o ≡ q ∷ es
      → q ≢ r
      → Chain next' (next' q) (remove r es)
      → ((x : ℕ) → has x (q ∷ es) ≡ false → next' x ≡ l.next_in_input x)
      → Threads (record l { next_in_input = next' }) (update chain o (remove r (chain o)))
  unfolding remove head_output_rule
  walked-Threads q es next' e ne rest same x = elim (Bool-cases (x == o)) [
    | inl at ↦
        let gone : q ∷ remove r es ≡ remove r (chain o) = ground (arith, e, ne) in
        rw at (
          subst (λ y. Chain next' (head_output_rule l y) (remove r (chain o)))
            (sym ((==_iff x o).0 at))
            (subst (λ xs. Chain next' (head_output_rule l o) xs) gone
              ((thread_of (q ∷ es) e).0, rest)))
    | inr other ↦ rw other (
        Chain-cong l.next_in_input next' (head_output_rule l x) (chain x)
          (λ y m. same y (outside y x q es e (ground (arith, other)) m)) (threads x))
  ]

  unlink_later :
      (q : ℕ) (es : List ℕ) → chain o ≡ q ∷ es → q ≢ r → (l' : Links) × Unlinked fuel r o l chain l'
  unfolding unlink_from has
  unlink_later q es e ne =
      let c = thread_of (q ∷ es) e in
      let (next', walked, rest, same) =
        unlink_walk_enough fuel r q l.next_in_input es c.1 (subst Distinct e once) ne
          (omega (arith, deep, ap length e)) in
      (
        record l { next_in_input = next' },
        record {
          unlinking = ground (arith, feeds, c.0, ne, walked);
          threads = walked-Threads q es next' e ne rest same;
          kind = refl;
          ref_rule = λ x ne'. refl;
        },
      )

  unlink_by : (es : List ℕ) → chain o ≡ es → (l' : Links) × Unlinked fuel r o l chain l'
  unfolding unlink_from remove unlink_walk
  unlink_by [] e = (
    l,
    record {
      unlinking = ground (arith, feeds, thread_of [] e);
      threads = λ x. elim (Bool-cases (x == o)) [
        | inl at ↦ rw at (
            subst (λ xs. Chain l.next_in_input (head_output_rule l x) xs)
              (ap chain ((==_iff x o).0 at) ∙ ground (arith, e)) (threads x))
        | inr other ↦ rw other (threads x)
      ];
      kind = refl;
      ref_rule = λ x ne. refl;
    },
  )
  unlink_by (q ∷ es) e = elim (Bool-cases (q == r)) [
    | inl hit ↦ unlink_first es (ground (arith, e, hit))
    | inr miss ↦ unlink_later q es e (ground (arith, miss))
  ]

  -- With fuel for the whole chain the rule leaves it.
  pub unlink_from-Unlinked : (l' : Links) × Unlinked fuel r o l chain l'
  unlink_from-Unlinked = unlink_by (chain o) refl
