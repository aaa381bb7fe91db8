-- ===== src/Util/Unlink.antt =====
-- The step of `myrefl_list_remove` (src/myrefl_util.c) that unlinks an element and frees it.
use myreflection.Common.{
  ℕ, ◌+◌, ◌-◌, ◌≡◌, refl, sym, ap, subst, Bool, true, false, List, [], ◌∷◌, ◌++◌, arith, ◌==◌,
  if◌then◌else◌, update, has, length-append, has-append, append-nil, Distinct-middle,
  Distinct-apart, Distinct-prefix,
}
use myreflection.Util.{Heap, Handle, enter, unlink}
use myreflection.Util.Chain.{
  Chain, last_of, IsList, values, Chain-update, Chain-same, Chain-splice, Chain-suffix, values-same,
  last-ne, validate_list-true, last_of-has, last_of-append_cons,
}
use myreflection.Util.Stores.{Stores, Becomes, Apart-sym}

-- The next pointers and the handle once an element is unlinked and freed.
abbrev skipped : (previous current x : ℕ) → (ℕ → ℕ) → Handle → ℕ → ℕ
skipped previous current x next l =
    update (if current == l.head then next else update next previous (next current)) current x

abbrev shortened : (previous current locks : ℕ) → (ℕ → ℕ) → Handle → Handle
shortened previous current locks next l = record l {
  head = if current == l.head then next current else l.head;
  tail = if current == l.tail then previous else l.tail;
  num_elements = l.num_elements - 1;
  locks = locks;
}

pub not_taken {ℓ} : {A : Type ℓ} (b : Bool) (x y : A) → b ≡ false → (if b then x else y) ≡ y
not_taken true x y e = cc
not_taken false x y e = refl

pub last_in : (b : ℕ) (bs : List ℕ) → has (last_of b bs) (b ∷ bs) ≡ true
unfolding has
last_in b bs = ground (arith, last_of-has b bs)

tail_shorter :
    (c t : ℕ) (bs es : List ℕ)
    → has c es ≡ false
    → t ≡ last_of 0 (bs ++ c ∷ es)
    → (if c == t then last_of 0 bs else t) ≡ last_of 0 (bs ++ es)
unfolding last_of
tail_shorter c t bs [] out e =
    ground (arith, e, last_of-append_cons 0 c bs [], ap (last_of 0) (append-nil bs))
tail_shorter c t bs (a ∷ es) out e = ground (
  arith,
  e,
  last_of-append_cons 0 c bs (a ∷ es),
  last_of-append_cons 0 a bs es,
  last-ne c a es out,
)

skipped-IsList :
    (next : ℕ → ℕ) (l : Handle) (c x locks : ℕ) (bs es : List ℕ)
    → IsList next l (bs ++ c ∷ es)
    → IsList
        (skipped (last_of 0 bs) c x next l)
        (shortened (last_of 0 bs) c locks next l)
        (bs ++ es)
unfolding last_of has
skipped-IsList next l c x locks [] es i =
    let first : (c == l.head) ≡ true = ground (arith, i.chain) in
    record {
      chain = rw first (Chain-update next c x (next c) es i.once.0 i.chain.2);
      once = i.once.1;
      ends = ground (arith, tail_shorter c l.tail [] es i.once.0 i.ends);
      count = ground (arith, i.count);
    }
skipped-IsList next l c x locks (b ∷ bs) es i =
    let (once, out) = Distinct-middle c (b ∷ bs) es i.once in
    let (ne, rest) = Chain-suffix next l.head c (b ∷ bs) es i.chain in
    let later : (c == l.head) ≡ false = ground (arith, i.chain, out) in
    let apart : has (last_of b bs) es ≡ false =
      Distinct-apart (last_of b bs) (b ∷ bs) es once (last_in b bs) in
    let out_es : has c es ≡ false = ground (arith, out, has-append c (b ∷ bs) es) in
    let same : skipped (last_of b bs) c x next l
        ≡ update (update next (last_of b bs) (next c)) c x =
      ap (λ f. update f c x)
        (not_taken (c == l.head) next (update next (last_of b bs) (next c)) later) in
    let spliced =
      Chain-splice next l.head b bs (c ∷ es) (next c) es i.chain
        (Distinct-prefix (b ∷ bs) (c ∷ es) i.once) apart rest in
    record {
      chain =
          subst (λ p. Chain (skipped (last_of b bs) c x next l) p ((b ∷ bs) ++ es))
            (sym (not_taken (c == l.head) (next c) l.head later))
            (subst (λ f. Chain f l.head ((b ∷ bs) ++ es)) (sym same)
              (Chain-update (update next (last_of b bs) (next c)) c x l.head ((b ∷ bs) ++ es) out
                spliced));
      once = once;
      ends = tail_shorter c l.tail (b ∷ bs) es out_es i.ends;
      count = ground (arith, i.count, length-append (b ∷ bs) es, length-append (b ∷ bs) (c ∷ es));
    }

-- What is off the list keeps its next pointer.
skipped_off :
    (next : ℕ → ℕ) (l : Handle) (c x a : ℕ) (bs es : List ℕ)
    → IsList next l (bs ++ c ∷ es)
    → has a (bs ++ c ∷ es) ≡ false
    → skipped (last_of 0 bs) c x next l a ≡ next a
unfolding last_of has
skipped_off next l c x a [] es i out = ground (arith, i.chain, out)
skipped_off next l c x a (b ∷ bs) es i out =
    ground (arith, out, has-append a (b ∷ bs) (c ∷ es), last-ne a b bs)

-- The element is free, and the others are a list.
pub unlink-Becomes :
    (h : Heap) (l : Handle) (c : ℕ) (bs es os fs vs : List ℕ)
    → Stores h l (bs ++ c ∷ es) os fs vs
    → ((unlink (last_of 0 bs) c h (enter l)).0 ≡ true)
      × Becomes h l os
          (values h.item (bs ++ es))
          ((unlink (last_of 0 bs) c h (enter l)).1, (unlink (last_of 0 bs) c h (enter l)).2)
unfolding unlink has
unlink-Becomes h l c bs es os fs vs s =
    let list = skipped-IsList h.next l c h.free (l.locks + 1) bs es s.is_list in
    let valid = validate_list-true _ _ (bs ++ es) list in
    let here : has c (bs ++ c ∷ es) ≡ true = ground (arith, has-append c bs (c ∷ es)) in
    let (once, out) = Distinct-middle c bs es s.is_list.once in
    let now : skipped (last_of 0 bs) c h.free h.next l c ≡ h.free = ground arith in
    let off : (a : ℕ) → has a (bs ++ es) ≡ true → has a (bs ++ c ∷ es) ≡ true =
      λ a m. ground (arith, has-append a bs (c ∷ es), has-append a bs es, m) in
    rw valid (
      refl,
      (
        bs ++ es,
        c ∷ fs,
        record {
          is_list = skipped-IsList h.next l c h.free (l.locks + 1 - 1) bs es s.is_list;
          is_pool = record {
            chain = (
              refl,
              (Chain-suffix h.next l.head c bs es s.is_list.chain).0,
              rw now (
                  Chain-same _ h.next h.free fs
                    (λ a m.
                      skipped_off h.next l c h.free a bs es s.is_list (Apart-sym _ fs s.unused a m))
                    s.is_pool.chain),
            );
            once = (s.unused c here, s.is_pool.once);
          };
          unused = λ a m. ground (arith, s.unused a (off a m), out, m);
          others_used = λ a m. ground (arith, s.others_used a, s.separate c here, m);
          separate = λ a m. s.separate a (off a m);
          holds = refl;
        },
        omega arith,
        (
          values-same _ h.next os (λ a m.
              skipped_off h.next l c h.free a bs es s.is_list (Apart-sym _ os s.separate a m)),
          refl,
        ),
      ),
    )
