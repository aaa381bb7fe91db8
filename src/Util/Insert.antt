-- ===== src/Util/Insert.antt =====
-- `myrefl_list_insert` and `myrefl_list_add` of src/myrefl_util.c against the sequence of values.
use myreflection.Common.{
  ℕ, ◌+◌, ◌-◌, ◌<◌, ◌≡◌, ◌≢◌, refl, sym, ap, subst, ◌∙◌, true, false, inl, inr, Option, some, List,
  [], ◌∷◌, ◌++◌, arith, ◌==◌, if◌then◌else◌, update, has, length, length-append, has-append,
  Bool-cases, append-nil, Distinct-insert, Distinct-apart, Distinct-prefix,
}
use myreflection.Util.{Heap, Handle, new_list_element, insert_element, insert_found, list_insert}
use myreflection.Util.Chain.{
  Chain, last_of, IsList, Apart, values, Chain-update, Chain-same, Chain-splice, values-same,
  last-ne, values-update, values-append, validate_list-true, last_of-ne, last_of-append_cons,
}
use myreflection.Util.Stores.{Stores, Becomes, Apart-sym, not_at, Stores-kept, Untouched-trans}
use myreflection.Util.Pooling.{IsFresh, new_list_element-Got}
use myreflection.Util.Unlink.{last_in, not_taken}
use myreflection.Util.Remove.{list_find-has}

-- The next pointers and the handle once an element stands behind `prev`.
abbrev linked_in : (e prev : ℕ) → (ℕ → ℕ) → Handle → ℕ → ℕ
linked_in e prev next l =
    if prev == 0 then update next e l.head else update (update next prev e) e (next prev)

abbrev headed : (e prev locks : ℕ) → Handle → Handle
headed e prev locks l =
    let head' = if prev == 0 then e else l.head in
    record l {
      head = head';
      tail = if l.tail == 0 then head' else if l.tail == prev then e else l.tail;
      num_elements = l.num_elements + 1;
      locks = locks;
    }

-- From the element behind a prefix, the chain goes on.
Chain-behind :
    (next : ℕ → ℕ) (p b : ℕ) (bs es : List ℕ)
    → Chain next p ((b ∷ bs) ++ es)
    → (last_of b bs ≢ 0) × Chain next (next (last_of b bs)) es
unfolding last_of
Chain-behind next p b [] es c = (c.1, c.2)
Chain-behind next p b (a ∷ bs) es c = Chain-behind next (next b) a bs es c.2

tail_of :
    (next : ℕ → ℕ) (p e t : ℕ) (es : List ℕ)
    → Chain next p es
    → t ≡ last_of 0 es
    → (if t == 0 then e else if t == 0 then e else t) ≡ last_of e es
unfolding last_of
tail_of next p e t [] c i = ground (arith, i)
tail_of next p e t (a ∷ es) c i = ground (arith, i, last_of-ne next p a es c)

tail_behind :
    (next : ℕ → ℕ) (p e t h b : ℕ) (bs es : List ℕ)
    → Chain next p ((b ∷ bs) ++ es)
    → has (last_of b bs) es ≡ false
    → t ≡ last_of 0 ((b ∷ bs) ++ es)
    → (if t == 0 then h else if t == last_of b bs then e else t) ≡ last_of 0 ((b ∷ bs) ++ e ∷ es)
unfolding last_of
tail_behind next p e t h b bs [] c out i = ground (
  arith,
  i,
  ap (last_of b) (append-nil bs),
  last_of-append_cons b e bs [],
  (Chain-behind next p b bs [] c).0,
)
tail_behind next p e t h b bs (a ∷ es) c out i = ground (
  arith,
  i,
  out,
  last_of-append_cons b a bs es,
  last_of-append_cons b e bs (a ∷ es),
  last-ne (last_of b bs) a es out,
  last_of-ne next (next (last_of b bs)) a es (Chain-behind next p b bs (a ∷ es) c).1,
)

linked_in-IsList :
    (next : ℕ → ℕ) (l : Handle) (e locks : ℕ) (bs es : List ℕ)
    → e ≢ 0
    → has e (bs ++ es) ≡ false
    → IsList next l (bs ++ es)
    → IsList (linked_in e (last_of 0 bs) next l) (headed e (last_of 0 bs) locks l) (bs ++ e ∷ es)
unfolding last_of has
linked_in-IsList next l e locks [] es ne out i =
    let now : update next e l.head e ≡ l.head = ground arith in
    record {
      chain = (refl, ne, rw now (Chain-update next e l.head l.head es out i.chain));
      once = (out, i.once);
      ends = tail_of next l.head e l.tail es i.chain i.ends;
      count = ground (arith, i.count);
    }
linked_in-IsList next l e locks (b ∷ bs) es ne out i =
    let (nonzero, rest) = Chain-behind next l.head b bs es i.chain in
    let later : (last_of b bs == 0) ≡ false = ground (arith, nonzero) in
    let out_es : has e es ≡ false = ground (arith, has-append e (b ∷ bs) es, out) in
    let apart : has (last_of b bs) es ≡ false =
      Distinct-apart (last_of b bs) (b ∷ bs) es i.once (last_in b bs) in
    let other : (e == last_of b bs) ≡ false =
      last-ne e b bs (ground (arith, has-append e (b ∷ bs) es, out)) in
    let next0 = update next e (next (last_of b bs)) in
    let now : next0 e ≡ next (last_of b bs) = ground arith in
    let out_new : has (last_of b bs) (e ∷ es) ≡ false = ground (arith, apart, other) in
    let spliced =
      Chain-splice next0 l.head b bs es e (e ∷ es)
        (Chain-update next e (next (last_of b bs)) l.head ((b ∷ bs) ++ es) out i.chain)
        (Distinct-prefix (b ∷ bs) es i.once) out_new
        (
          refl,
          ne,
          rw now (Chain-update next e (next (last_of b bs)) (next (last_of b bs)) es out_es rest),
        ) in
    record {
      chain =
          subst (λ p. Chain (linked_in e (last_of b bs) next l) p ((b ∷ bs) ++ e ∷ es))
            (sym (not_taken (last_of b bs == 0) e l.head later))
            (Chain-same _ (update next0 (last_of b bs) e) l.head ((b ∷ bs) ++ e ∷ es)
              (λ a m. ground (arith, later, other)) spliced);
      once = Distinct-insert e (b ∷ bs) es i.once out;
      ends = rw later (tail_behind next l.head e l.tail l.head b bs es i.chain apart i.ends);
      count = ground (arith, i.count, length-append (b ∷ bs) (e ∷ es), length-append (b ∷ bs) es);
    }

-- What is off the list and not the new element keeps its next pointer.
linked_in_off :
    (next : ℕ → ℕ) (l : Handle) (e a : ℕ) (bs es : List ℕ)
    → (a == e) ≡ false
    → has a (bs ++ es) ≡ false
    → linked_in e (last_of 0 bs) next l a ≡ next a
unfolding last_of has
linked_in_off next l e a [] es ne out = ground (arith, ne)
linked_in_off next l e a (b ∷ bs) es ne out =
    ground (arith, ne, out, has-append a (b ∷ bs) es, last-ne a b bs)

insert_element-Becomes :
    (e v : ℕ) (h : Heap) (l : Handle) (bs es os fs vs : List ℕ)
    → Stores h l (bs ++ es) os fs vs
    → e ≢ 0
    → has e (bs ++ es) ≡ false
    → has e os ≡ false
    → has e fs ≡ false
    → Becomes h l os
        (values h.item bs ++ v ∷ values h.item es)
        (insert_element e (last_of 0 bs) v h l)
unfolding insert_element has values
insert_element-Becomes e v h l bs es os fs vs s ne out out_os out_fs =
    let prev = last_of 0 bs in
    let list = linked_in-IsList h.next l e (l.locks + 1) bs es ne out s.is_list in
    let valid = validate_list-true _ _ (bs ++ e ∷ es) list in
    let off : (a : ℕ) → has a os ≡ true → has a (bs ++ es) ≡ false =
      Apart-sym (bs ++ es) os s.separate in
    rw valid (
      bs ++ e ∷ es,
      fs,
      record {
        is_list = linked_in-IsList h.next l e (l.locks + 1 - 1) bs es ne out s.is_list;
        is_pool = record {
          chain =
              Chain-same (linked_in e prev h.next l) h.next h.free fs
                (λ a m.
                  linked_in_off h.next l e a bs es (not_at e a fs out_fs m)
                    (Apart-sym (bs ++ es) fs s.unused a m))
                s.is_pool.chain;
          once = s.is_pool.once;
        };
        unused = λ a m.
            ground (arith, has-append a bs (e ∷ es), has-append a bs es, s.unused a, out_fs, m);
        others_used = s.others_used;
        separate = λ a m.
            ground (arith, has-append a bs (e ∷ es), has-append a bs es, s.separate a, out_os, m);
        holds =
            let item' = update h.item e v in
            let now : item' e ≡ v = ground arith in
            values-append item' bs (e ∷ es)
            ∙ ap (λ t. t ++ values item' (e ∷ es))
                (values-update h.item e v bs (ground (arith, has-append e bs es, out)))
            ∙ ap (λ t. values h.item bs ++ item' e ∷ t)
                (values-update h.item e v es (ground (arith, has-append e bs es, out)))
            ∙ ap (λ x. values h.item bs ++ x ∷ values h.item es) now;
      },
      omega arith,
      (
        values-same _ h.next os
            (λ a m. linked_in_off h.next l e a bs es (not_at e a os out_os m) (off a m)),
        values-update h.item e v os out_os,
      ),
    )

-- The list after an insertion behind the prefix `bs` of its elements: as before where it has the
-- value or no element is found.
abbrev pub Inserted :
    Option ℕ → ℕ → Heap → Handle → (bs es os vs : List ℕ) → Option (Heap × Handle) → Type 0
Inserted block v h l bs es os vs o =
    (h' : Heap) × (l' : Handle) × (o ≡ some (h', l'))
    × Becomes h l os
        (if has v vs
          then vs
          else if (new_list_element block h).0 == 0
          then vs
          else values h.item bs ++ v ∷ values h.item es)
        (h', l')

-- myrefl_list_insert returns, given more rounds than elements: behind the element `prev` of the
-- list, or in front where that is NULL, it inserts its value, unless the list has the value already
-- or no element is found, which leave the values as they are. It leaves the critical section in each
-- case and keeps the elements of all other lists.
pub list_insert-Inserted :
    (fuel : ℕ) (block : Option ℕ) (v : ℕ) (h : Heap) (l : Handle) (bs es os fs vs : List ℕ)
    → Stores h l (bs ++ es) os fs vs
    → IsFresh block ((bs ++ es) ++ os)
    → length (bs ++ es) < fuel
    → Inserted block v h l bs es os vs (list_insert fuel block (last_of 0 bs) v h l)
unfolding list_insert insert_found
list_insert-Inserted fuel block v h l bs es os fs vs s fresh k =
    let all = bs ++ es in
    let valid = validate_list-true h.next l all s.is_list in
    let looked = list_find-has fuel v h l all os fs vs s k in
    let apart : Apart (all ++ os) fs =
      λ a m. ground (arith, has-append a all os, s.unused a, s.others_used a, m) in
    let (fs', got) = new_list_element-Got block h (all ++ os) fs s.is_pool apart fresh in
    let e = (new_list_element block h).0 in
    let h' = (new_list_element block h).1 in
    let (kept, same) = Stores-kept h h' l all os fs fs' vs s got.pool got.apart got.kept in
    elim (Bool-cases (has v vs)) [
      | inl there ↦ rw (valid, looked, there) (h, l, refl, (all, fs, s, refl, (refl, refl)))
      | inr absent ↦
          rw (valid, looked, absent)
            (elim got.fresh [
              | inl null ↦
                  let empty : (e == 0) ≡ true = ground (arith, null) in
                  rw empty (h', l, refl, (all, fs', kept, refl, same))
              | inr (ne, out, unused) ↦
                  let full : (e == 0) ≡ false = ground (arith, ne) in
                  let (es2, fs2, stores, locks, later) =
                    insert_element-Becomes e v h' l bs es os fs' vs kept ne
                      (ground (arith, has-append e all os, out))
                      (ground (arith, has-append e all os, out)) unused in
                  let before = values-same h'.item h.item bs (λ a m.
                    (got.kept a (ground (arith, has-append a all os, has-append a bs es, m))).1) in
                  let behind = values-same h'.item h.item es (λ a m.
                    (got.kept a (ground (arith, has-append a all os, has-append a bs es, m))).1) in
                  let u = insert_element e (last_of 0 bs) v h' l in
                  rw full (
                    u.0,
                    u.1,
                    refl,
                    (
                      es2,
                      fs2,
                      subst (λ ws. Stores u.0 u.1 es2 os fs2 ws)
                          (ap (λ t. t ++ v ∷ values h'.item es) before
                            ∙ ap (λ t. values h.item bs ++ v ∷ t) behind)
                          stores,
                      locks,
                      Untouched-trans os h h' u.0 same later,
                    ),
                  )
            ])
    ]
