-- ===== src/Util/Pop.antt =====
-- `myrefl_list_pop`, `myrefl_list_peek` and `myrefl_list_free` of src/myrefl_util.c.
use myreflection.Common.{
  ℕ, ◌+◌, ◌-◌, ◌≡◌, refl, sym, ap, subst, ◌∙◌, true, false, List, [], ◌∷◌, arith, ◌==◌,
  if◌then◌else◌, update, has,
}
use myreflection.Util.{Heap, Handle, list_pop, list_peek}
use myreflection.Util.Chain.{
  last_of, IsList, values, Chain-update, last-ne, values-update, validate_list-true,
}
use myreflection.Util.Stores.{Stores, Becomes}

-- The handle without its first element.
abbrev shrunk : (ℕ → ℕ) → ℕ → Handle → Handle
shrunk next locks l = record l {
  head = next l.head;
  tail = if l.tail == l.head then 0 else l.tail;
  num_elements = l.num_elements - 1;
  locks = locks;
}

-- The rest of the list once its first element is free.
shrunk-IsList :
    (next : ℕ → ℕ) (l : Handle) (a x locks : ℕ) (es : List ℕ)
    → IsList next l (a ∷ es)
    → IsList (update next a x) (shrunk next locks l) es
unfolding last_of has
shrunk-IsList next l a x locks [] i = record {
  chain = ground (arith, i.chain);
  once = tt;
  ends = ground (arith, i.chain, i.ends);
  count = ground (arith, i.count);
}
shrunk-IsList next l a x locks (b ∷ es) i =
    let apart = last-ne a b es i.once.0 in
    record {
      chain = rw i.chain.0 (Chain-update next a x (next a) (b ∷ es) i.once.0 i.chain.2);
      once = i.once.1;
      ends = ground (arith, apart, i.chain.0, i.ends);
      count = ground (arith, i.count);
    }

abbrev first_of : List ℕ → ℕ
first_of [] = 0
first_of (x ∷ xs) = x

abbrev rest_of : List ℕ → List ℕ
rest_of [] = []
rest_of (x ∷ xs) = xs

-- The next pointers once an element is free.
abbrev freed : ℕ → Heap → ℕ → ℕ
freed a h = update h.next a h.free

pop_head :
    (h : Heap) (l : Handle) (v : ℕ) (es os fs vs : List ℕ)
    → Stores h l (l.head ∷ es) os fs (v ∷ vs)
    → ((list_pop h l).0 ≡ v) × Becomes h l os vs ((list_pop h l).1, (list_pop h l).2)
unfolding list_pop has values
pop_head h l v es os fs vs s =
    let valid = validate_list-true h.next l (l.head ∷ es) s.is_list in
    let full : (l.head == 0) ≡ false = ground (arith, s.is_list.chain.1) in
    let list = shrunk-IsList h.next l l.head h.free (l.locks + 1) es s.is_list in
    let valid' = validate_list-true (freed l.head h) (shrunk h.next (l.locks + 1) l) es list in
    let out_os = s.separate l.head (ground arith) in
    let out_fs = s.unused l.head (ground arith) in
    let now : freed l.head h l.head ≡ h.free = ground arith in
    rw (valid, full, valid')
      (
        ap (λ xs. first_of xs) s.holds,
        (
          es,
          l.head ∷ fs,
          record {
            is_list = shrunk-IsList h.next l l.head h.free (l.locks + 1 - 1) es s.is_list;
            is_pool = record {
              chain = (
                refl,
                s.is_list.chain.1,
                rw now (Chain-update h.next l.head h.free h.free fs out_fs s.is_pool.chain),
              );
              once = (out_fs, s.is_pool.once);
            };
            unused = λ a m. ground (arith, s.unused a, s.is_list.once.0, m);
            others_used = λ a m. ground (arith, s.others_used a, out_os, m);
            separate = λ a m. s.separate a (ground (arith, m));
            holds = ap (λ xs. rest_of xs) s.holds;
          },
          omega arith,
          (values-update h.next l.head h.free os out_os, refl),
        ),
      )

-- myrefl_list_pop returns the first value of a list that is not empty, leaves the rest, frees the
-- element, leaves the critical section and keeps the elements of all other lists.
pub list_pop-Becomes :
    (h : Heap) (l : Handle) (es os fs : List ℕ) (v : ℕ) (vs : List ℕ)
    → Stores h l es os fs (v ∷ vs)
    → ((list_pop h l).0 ≡ v) × Becomes h l os vs ((list_pop h l).1, (list_pop h l).2)
unfolding values
list_pop-Becomes h l [] os fs v vs s = absurd (cc (s.holds))
list_pop-Becomes h l (a ∷ es) os fs v vs s =
    pop_head h l v es os fs vs
      (subst (λ b. Stores h l (b ∷ es) os fs (v ∷ vs)) (sym s.is_list.chain.0) s)

-- On an empty list myrefl_list_pop returns NULL and changes nothing.
pub list_pop-empty :
    (h : Heap) (l : Handle) (es os fs : List ℕ) → Stores h l es os fs [] → list_pop h l ≡ (0, h, l)
unfolding list_pop values
list_pop-empty h l [] os fs s =
    let valid = validate_list-true h.next l [] s.is_list in
    let empty : (l.head == 0) ≡ true = ground (arith, s.is_list.chain) in rw (valid, empty) refl
list_pop-empty h l (a ∷ es) os fs s = absurd (cc (s.holds))

-- myrefl_list_peek returns what myrefl_list_pop would.
pub list_peek-list_pop :
    (h : Heap) (l : Handle) (es os fs vs : List ℕ)
    → Stores h l es os fs vs
    → list_peek h l ≡ (list_pop h l).0
unfolding list_peek values
list_peek-list_pop h l [] os fs vs s =
    let empty : (l.head == 0) ≡ true = ground (arith, s.is_list.chain) in
    rw empty (
      sym
        (ap (λ r. r.0) (list_pop-empty h l [] os fs (subst (Stores h l [] os fs) (sym s.holds) s))))
list_peek-list_pop h l (a ∷ es) os fs vs s =
    let full : (l.head == 0) ≡ false = ground (arith, s.is_list.chain) in
    let popped =
      list_pop-Becomes h l (a ∷ es) os fs (h.item a) (values h.item es)
        (subst (Stores h l (a ∷ es) os fs) (sym s.holds) s) in
    rw full (ap h.item s.is_list.chain.0 ∙ sym popped.0)
