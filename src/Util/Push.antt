-- ===== src/Util/Push.antt =====
-- `myrefl_list_push` of src/myrefl_util.c against the sequence of values that a
-- list stands for.
use myreflection.Common.{
  ℕ, ◌+◌, ◌-◌, ◌≡◌, ◌≢◌, refl, sym, ap, subst, ◌∙◌, true, false, inl, inr, Option, List, [], ◌∷◌,
  ◌++◌, arith, ◌==◌, if◌then◌else◌, update, has, length-append, append-nil, has-append,
  Distinct-append_one, Bool-cases,
}
use myreflection.Util.{Heap, Handle, new_list_element, push_element, list_push}
use myreflection.Util.Chain.{
  Chain, last_of, IsList, Apart, values, Chain-update, Chain-splice, Chain-same, values-same,
  values-update, values-append, last_of-append, validate_list-true, last_of-ne, last_of-has,
}
use myreflection.Util.Stores.{
  Stores, Untouched, Becomes, Apart-sym, not_at, Stores-kept, Untouched-trans,
}
use myreflection.Util.Pooling.{IsFresh, new_list_element-Got}

-- The handle after the new element is its last.
abbrev grown : ℕ → ℕ → Handle → Handle
grown e lock l = record l {
  head = if l.head == 0 then e else l.head;
  tail = e;
  num_elements = l.num_elements + 1;
  locks = lock;
}

-- The next pointers after it.
abbrev linked : ℕ → (ℕ → ℕ) → Handle → ℕ → ℕ
linked e next l = if l.tail == 0 then next else update next l.tail e

linked-IsList :
    (e : ℕ) (next : ℕ → ℕ) (l : Handle) (es : List ℕ) (locks : ℕ)
    → e ≢ 0
    → has e es ≡ false
    → next e ≡ 0
    → IsList next l es
    → IsList (linked e next l) (grown e locks l) (es ++ e ∷ [])
unfolding last_of has
linked-IsList e next l [] locks ne out end i = record {
  chain = (ground (arith, i.chain), ne, ground (arith, i.ends, end));
  once = (refl, tt);
  ends = refl;
  count = ground (arith, i.count);
}
linked-IsList e next l (a ∷ es) locks ne out end i =
    let nonzero : (l.tail == 0) ≡ false =
      ground (arith, i.ends, last_of-ne next l.head a es i.chain) in
    let headed : (l.head == 0) ≡ false = ground (arith, i.chain) in
    let same : linked e next l ≡ update next (last_of a es) e =
      rw nonzero (ap (λ t. update next t e) i.ends) in
    let last_out : has (last_of a es) (e ∷ []) ≡ false = ground (arith, out, last_of-has a es) in
    let spliced =
      Chain-splice next l.head a es [] e (e ∷ []) (rw (append-nil es) i.chain) i.once last_out
        (refl, ne, end) in
    record {
      chain = rw headed (subst (λ f. Chain f l.head (a ∷ es ++ e ∷ [])) (sym same) spliced);
      once = Distinct-append_one e (a ∷ es) i.once out;
      ends = sym (last_of-append a e es);
      count = ground (arith, i.count, length-append (a ∷ es) (e ∷ []));
    }

-- Only the new element and the old tail change their next pointers.
linked-same :
    (e a : ℕ) (next : ℕ → ℕ) (l : Handle) (es : List ℕ)
    → IsList next l es
    → (a == e) ≡ false
    → has a es ≡ false
    → linked e (update next e 0) l a ≡ next a
unfolding last_of has
linked-same e a next l [] i ne out = ground (arith, i.ends, ne)
linked-same e a next l (b ∷ es) i ne out =
    let tail_in = last_of-has b es in
    elim (Bool-cases (a == l.tail)) [
      | inl at_tail ↦ absurd (ground (arith, at_tail, i.ends, out, tail_in))
      | inr other ↦ ground (arith, other, ne)
    ]

-- What is off the list and not the new element keeps its fields.
Untouched-grown :
    (e v : ℕ) (h : Heap) (l : Handle) (es os : List ℕ)
    → IsList h.next l es
    → has e os ≡ false
    → Apart os es
    → Untouched os h (record h { next = linked e (update h.next e 0) l; item = update h.item e v })
unfolding has
Untouched-grown e v h l es os i out apart = (
  values-same _ h.next os (λ a m. linked-same e a h.next l es i (not_at e a os out m) (apart a m)),
  values-update h.item e v os out,
)

push_element-Becomes :
    (e v : ℕ) (h : Heap) (l : Handle) (es os fs vs : List ℕ)
    → Stores h l es os fs vs
    → e ≢ 0
    → has e es ≡ false
    → has e os ≡ false
    → has e fs ≡ false
    → Becomes h l os (vs ++ v ∷ []) (push_element e v h l)
unfolding push_element has values
push_element-Becomes e v h l es os fs vs s ne out out_os out_fs =
    let next0 = update h.next e 0 in
    let list0 : IsList next0 l es = record {
      chain = Chain-update h.next e 0 l.head es out s.is_list.chain;
      once = s.is_list.once;
      ends = s.is_list.ends;
      count = s.is_list.count;
    } in
    let list2 = linked-IsList e next0 l es (l.locks + 1) ne out (ground arith) list0 in
    let valid0 = validate_list-true next0 l es list0 in
    let valid2 =
      validate_list-true (linked e next0 l) (grown e (l.locks + 1) l) (es ++ e ∷ []) list2 in
    rw (valid0, valid2)
      (
        es ++ e ∷ [],
        fs,
        record {
          is_list = linked-IsList e next0 l es (l.locks + 1 - 1) ne out (ground arith) list0;
          is_pool = record {
            chain =
                Chain-same (linked e next0 l) h.next h.free fs
                  (λ a m.
                    linked-same e a h.next l es s.is_list (not_at e a fs out_fs m)
                      (Apart-sym es fs s.unused a m))
                  s.is_pool.chain;
            once = s.is_pool.once;
          };
          unused = λ a m. ground (arith, has-append a es (e ∷ []), s.unused a, out_fs, m);
          others_used = s.others_used;
          separate = λ a m. ground (arith, has-append a es (e ∷ []), s.separate a, out_os, m);
          holds =
              let now : update h.item e v e ≡ v = ground arith in
              values-append (update h.item e v) es (e ∷ [])
              ∙ ap (λ t. t ++ values (update h.item e v) (e ∷ []))
                  (values-update h.item e v es out ∙ s.holds)
              ∙ ap (λ x. vs ++ x ∷ []) now;
        },
        omega arith,
        Untouched-grown e v h l es os s.is_list out_os (Apart-sym es os s.separate),
      )

-- myrefl_list_push appends its value to the values that the list stands for, wherever calloc finds
-- the memory that it may need; without an element it leaves the list as it is. Either way it leaves
-- the critical section and keeps the elements of all other lists.
pub list_push-Becomes :
    (block : Option ℕ) (v : ℕ) (h : Heap) (l : Handle) (es os fs vs : List ℕ)
    → Stores h l es os fs vs
    → IsFresh block (es ++ os)
    → Becomes h l os
        (if (new_list_element block h).0 == 0 then vs else vs ++ v ∷ [])
        (list_push block v h l)
unfolding list_push
list_push-Becomes block v h l es os fs vs s fresh =
    let apart : Apart (es ++ os) fs =
      λ a m. ground (arith, has-append a es os, s.unused a, s.others_used a, m) in
    let (fs', got) = new_list_element-Got block h (es ++ os) fs s.is_pool apart fresh in
    let e = (new_list_element block h).0 in
    let h' = (new_list_element block h).1 in
    let (kept, same) = Stores-kept h h' l es os fs fs' vs s got.pool got.apart got.kept in
    elim got.fresh [
      | inl null ↦
          let empty : (e == 0) ≡ true = ground (arith, null) in rw empty (es, fs', kept, refl, same)
      | inr (ne, out, unused) ↦
          let full : (e == 0) ≡ false = ground (arith, ne) in
          let (es2, fs2, stores, locks, later) =
            push_element-Becomes e v h' l es os fs' vs kept ne
              (ground (arith, has-append e es os, out)) (ground (arith, has-append e es os, out))
              unused in
          rw full
            (es2, fs2, stores, locks, Untouched-trans os h h' (push_element e v h' l).0 same later)
    ]
