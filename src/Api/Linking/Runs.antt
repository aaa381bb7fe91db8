-- ===== src/Api/Linking/Runs.antt =====
-- What a client links by myrefl_rule_create (src/myrefl_api.c), seq_sequencer
-- (src/myrefl_sequence.c) walks through.
use myreflection.Common.{
  ℕ, suc, ◌+◌, ◌-◌, ◌^◌, ◌≤◌, ◌<◌, ◌≡◌, refl, sym, ◌≢◌, ◌∙◌, ap, subst, true, Option, some, none,
  List, [], ◌∷◌, arith, ◌==◌, has, remove, length, if◌then◌else◌, if-holds, some_injective,
}
use myreflection.Common.Int.{ℤ}
use myreflection.Types.{Result, ObjType, rule, is_rule}
use myreflection.Rci.Depend.Search.{IsRanked}
use myreflection.Api.Linking.{Links, inputs_of, head_output_rule, Named, object, done, rule_create}
use myreflection.Api.Linking.Acyclic.{rule_create-Reranked}
use myreflection.Api.Linking.Chains.{Chain}
use myreflection.Api.Linking.Filed.{IsSingle, IsChained, moved, Files, rule_create-Files}
use myreflection.Sequence.Sequencer.{Wiring, Engine, Event, sequencer}
use myreflection.Sequence.Sequencer.Wired.{IsWired, Gives}
use myreflection.Sequence.Sequencer.Returns.{sequencer-Returns}

-- Nothing is linked yet.
abbrev pub IsUnlinked : (ℕ → ObjType) → Links → Type 0
IsUnlinked kind l =
    (l.kind ≡ kind)
    × ((o : ℕ) → l.inputs o ≡ [])
    × ((o : ℕ) → head_output_rule l o ≡ none)
    × ((o : ℕ) → l.ref_rule o ≡ none)

-- The links after so many completed calls, none of which gives a rule itself as its input. A walk
-- along a chain has fuel for as many rules as there have been calls.
pub data Reached (kind : ℕ → ObjType) : ℕ → Links → Type 0 where
  start : (l : Links) → IsUnlinked kind l → Reached kind 0 l
  call :
      {n : ℕ} {l l' : Links}
      → Reached kind n l
      → (fuel r i : ℕ) (a : Named) → n ≤ fuel
      → l.kind r ≡ rule
      → i ≢ r
      → rule_create fuel (object r) (object i) a l ≡ done l'
      → Reached kind (suc n) l'

-- Chains that agree with the inputs, and a bounded rank of the inputs.
pub record IsLinked (n : ℕ) (l : Links) : Type 0 where
  pub chain : ℕ → List ℕ
  pub chained : IsChained l chain
  pub short : (o : ℕ) → length (chain o) ≤ n
  pub rank : ℕ → ℕ
  pub ranked : IsRanked (inputs_of l) rank
  pub bounded : (o : ℕ) → rank o < 2 ^ n

length-remove : (r : ℕ) (xs : List ℕ) → length (remove r xs) ≤ length xs
unfolding remove
length-remove r [] = omega arith
length-remove r (x ∷ xs) = ground (arith, length-remove r xs)

length-moved :
    (chain : ℕ → List ℕ) (r i o n : ℕ)
    → ((x : ℕ) → length (chain x) ≤ n)
    → length (moved chain r i o) ≤ suc n
unfolding moved
length-moved chain r i o n h =
    if-holds (λ xs. length xs ≤ suc n) (o == i) (r ∷ remove r (chain i)) (remove r (chain o))
      (omega (arith, h i, length-remove r (chain i)))
      (omega (arith, h o, length-remove r (chain o)))

IsUnlinked-IsLinked : (kind : ℕ → ObjType) (l : Links) → IsUnlinked kind l → IsLinked 0 l
unfolding has
IsUnlinked-IsLinked kind l (k, empty, heads, refs) = record {
  chain = λ o. [];
  chained = record {
    threads = heads;
    distinct = λ o. tt;
    listed = λ o r. sym (ap (has o) (empty r));
    single = λ r. subst IsSingle (sym (empty r)) tt;
    feeding = λ o r m. absurd (let none_there = ap (has o) (empty r) in cc);
    taking = λ o r m. absurd (let none_there = ap (has o) (empty r) in cc);
    created = λ r is. refs r;
  };
  short = λ o. omega arith;
  rank = λ o. 0;
  ranked = λ a b m. absurd (ground (arith, ap (has b) (empty a), m));
  bounded = λ o. omega arith;
}

doubled : (n a b c : ℕ) → a ≤ b + suc c → b < 2 ^ n → c < 2 ^ n → a < 2 ^ suc n
doubled n a b c h hb hc = omega arith

pub Reached-IsLinked : {kind : ℕ → ObjType} {n : ℕ} {l : Links} → Reached kind n l → IsLinked n l
Reached-IsLinked (start l u) = IsUnlinked-IsLinked _ l u
Reached-IsLinked (call {n = n} {l = l} {l' = l'} before fuel r i a enough is other e) =
    let k = Reached-IsLinked before in
    let files =
      rule_create-Files fuel r i a l k.chain k.chained (λ o. omega (arith, k.short o, enough)) is in
    let (rank, ranked, le) = rule_create-Reranked fuel r i a l l' k.rank k.ranked is other e in
    record {
      chain = moved k.chain r i;
      chained = subst (Files r i l k.chain) e files;
      short = λ o. length-moved k.chain r i o n k.short;
      rank = rank;
      ranked = ranked;
      bounded = λ o. doubled n _ _ _ (le o) (k.bounded o) (k.bounded i);
    }

Chain-unique :
    (next : ℕ → Option ℕ) (p : Option ℕ) (xs ys : List ℕ)
    → Chain next p xs
    → Chain next p ys
    → xs ≡ ys
Chain-unique next p [] [] c d = refl
Chain-unique next p [] (y ∷ ys) c d = absurd (let e = d.0 in cc)
Chain-unique next p (x ∷ xs) [] c d = absurd (let e = c.0 in cc)
Chain-unique next p (x ∷ xs) (y ∷ ys) c d =
    let same = some_injective (sym c.0 ∙ d.0) in
    λ i.
      same i
      ∷ Chain-unique next (next x) xs ys c.1 (subst (λ z. Chain next (next z) ys) (sym same) d.1) i

-- The wiring that the sequencer walks through is that of the links, and the objects' instances are
-- their own.
pub record Reads (w : Wiring) (l : Links) : Type 0 where
  pub output : (r : ℕ) → w.output r ≡ (if is_rule (l.kind r) then l.output r else none)
  pub behind : (r : ℕ) → Chain l.next_in_input (l.next_in_input r) (w.behind r)
  pub owned : (o : ℕ) → w.owner (w.base o) ≡ o
  pub members_owned : (o m : ℕ) → has m (w.members o) ≡ true → w.owner m ≡ o

module _ (w : Wiring) (n : ℕ) (l : Links) (k : IsLinked n l) (reads : Reads w l) where
  height : ℕ → ℕ
  height o = 2 ^ n - k.rank o

  fed_by :
      (r o q : ℕ) → w.output r ≡ some o → has q (o ∷ w.behind o) ≡ true → has q (k.chain r) ≡ true
  unfolding head_output_rule
  fed_by r o q e m =
      let is : l.kind r ≡ rule = ground (arith, reads.output r, e) in
      let first : head_output_rule l r ≡ some o = ground (arith, reads.output r, e, is) in
      let same =
        Chain-unique l.next_in_input (head_output_rule l r) (k.chain r) (o ∷ w.behind o)
          (k.chained.threads r) (first, reads.behind o) in
      subst (λ xs. has q xs ≡ true) (sym same) m

  feeds_higher : (r q : ℕ) → has q (k.chain r) ≡ true → k.rank r < k.rank q
  feeds_higher r q m =
      let input : has r (l.inputs q) ≡ true = sym (k.chained.listed r q) ∙ m in
      let is = k.chained.taking r q input in k.ranked q r (ground (arith, is, input))

  linked-IsWired : IsWired w height (2 ^ n)
  unfolding height
  linked-IsWired = record {
    owned = reads.owned;
    members_owned = reads.members_owned;
    lower =
        λ r o q e m. omega (arith, feeds_higher r q (fed_by r o q e m), k.bounded q, k.bounded r);
    bounded = λ r. omega arith;
  }

-- Let a client link rules by n completed calls of myrefl_rule_create, from unlinked objects of fixed
-- types, with no rule given itself as its input, and the walks along chains with fuel for as many
-- rules as there have been calls. Then seq_sequencer returns on the result: a depth of more than twice
-- 2 ^ n and one calls gives a state for every event, instance, result, value and state, whatever the
-- engine does.
pub linked-Returns :
    {S : Type 0} (kind : ℕ → ObjType) (n : ℕ) (l : Links) (e : Engine S) (w : Wiring)
    → Reached kind n l
    → Reads w l
    → (fuel : ℕ) (event : Event) (i : ℕ) (r : Result) (v : ℤ) (s : S) → 2 ^ n + 2 ^ n + 1 < fuel
    → Gives (sequencer e w fuel event i r v s)
linked-Returns kind n l e w reached reads fuel event i r v s enough =
    let k = Reached-IsLinked reached in
    sequencer-Returns e w (height w n l k reads) (2 ^ n) (linked-IsWired w n l k reads) fuel event i
      r v s enough
