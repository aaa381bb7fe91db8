-- ===== src/Util/Remove.antt =====
-- `myrefl_list_remove` and `myrefl_list_find` of src/myrefl_util.c against the sequence of values.
use myreflection.Common.{
  ℕ, zero, suc, ◌<◌, ◌≡◌, refl, sym, ap, subst, ◌∙◌, Bool, true, false, inl, inr, Option, some,
  List, [], ◌∷◌, ◌++◌, arith, ◌==◌, has, remove, length, append-nil, Bool-cases, ==_iff,
}
use myreflection.Util.{
  Heap, Handle, enter, leave, unlink, remove_from, list_remove, find_from, list_find,
}
use myreflection.Util.Chain.{
  Chain, last_of, values, values-append, validate_list-true, last_of-append,
}
use myreflection.Util.Unlink.{unlink-Becomes}
use myreflection.Util.Stores.{Stores, Becomes}

-- The first of the values is removed, and the answer says whether there was one.
abbrev pub Removed : ℕ → Heap → Handle → List ℕ → List ℕ → Option (Bool × Heap × Handle) → Type 0
Removed v h l os vs o =
    (h' : Heap) × (l' : Handle) × (o ≡ some (has v vs, h', l'))
    × Becomes h l os (remove v vs) (h', l')

has-middle :
    (v : ℕ) (xs ys : List ℕ)
    → has v xs ≡ false
    → (has v (xs ++ v ∷ ys) ≡ true) × (remove v (xs ++ v ∷ ys) ≡ xs ++ ys)
unfolding has remove
has-middle v [] ys h = (ground arith, ground arith)
has-middle v (x ∷ xs) ys h = ground (arith, has-middle v xs ys)

remove-none : (v : ℕ) (xs : List ℕ) → has v xs ≡ false → remove v xs ≡ xs
unfolding has remove
remove-none v [] h = refl
remove-none v (x ∷ xs) h = ground (arith, remove-none v xs)

values-snoc :
    (f : ℕ → ℕ) (c v : ℕ) (bs : List ℕ)
    → has v (values f bs) ≡ false
    → (f c == v) ≡ false
    → has v (values f (bs ++ c ∷ [])) ≡ false
unfolding values has
values-snoc f c v [] h ne = ground (arith, ne)
values-snoc f c v (b ∷ bs) h ne = ground (arith, values-snoc f c v bs, h, ne)

append-snoc : (c : ℕ) (bs es : List ℕ) → (bs ++ c ∷ []) ++ es ≡ bs ++ c ∷ es
append-snoc c [] es = refl
append-snoc c (b ∷ bs) es = ap (λ t. b ∷ t) (append-snoc c bs es)

found :
    (h : Heap) (l : Handle) (c : ℕ) (bs es os fs vs : List ℕ)
    → Stores h l (bs ++ c ∷ es) os fs vs
    → has (h.item c) (values h.item bs) ≡ false
    → Removed (h.item c) h l os vs (some (unlink (last_of 0 bs) c h (enter l)))
unfolding values
found h l c bs es os fs vs s first =
    let (done, after) = unlink-Becomes h l c bs es os fs vs s in
    let split = values-append h.item bs (c ∷ es) in
    let (there, rest) = has-middle (h.item c) (values h.item bs) (values h.item es) first in
    let e : vs ≡ values h.item bs ++ h.item c ∷ values h.item es = sym s.holds ∙ split in
    let u = unlink (last_of 0 bs) c h (enter l) in
    let gone : remove (h.item c) vs ≡ values h.item (bs ++ es) =
      ap (remove (h.item c)) e ∙ rest ∙ sym (values-append h.item bs es) in
    (
      u.1,
      u.2,
      ap (λ b. some (b, u.1, u.2)) (done ∙ sym (ap (has (h.item c)) e ∙ there)),
      subst (λ ws. Becomes h l os ws (u.1, u.2)) (sym gone) after,
    )

remove_from-Removed :
    (fuel v current : ℕ) (h : Heap) (l : Handle) (bs es os fs vs : List ℕ)
    → Stores h l (bs ++ es) os fs vs
    → has v (values h.item bs) ≡ false
    → Chain h.next current es
    → length es < fuel
    → Removed v h l os vs (remove_from fuel (last_of 0 bs) current v h (enter l))
unfolding remove_from
remove_from-Removed zero v current h l bs es os fs vs s out c k = absurd (omega (arith, k))
remove_from-Removed (suc fuel) v current h l bs [] os fs vs s out c k =
    let empty : (current == 0) ≡ true = ground (arith, c) in
    let valid = validate_list-true h.next l (bs ++ []) s.is_list in
    let none_there : has v vs ≡ false =
      ap (has v) (sym s.holds ∙ ap (values h.item) (append-nil bs)) ∙ out in
    let same = remove-none v vs none_there in
    rw (empty, valid)
      (
        h,
        leave (enter l),
        ap (λ b. some (b, h, leave (enter l))) (sym none_there),
        (
          bs ++ [],
          fs,
          record {
            is_list = record {
              chain = s.is_list.chain;
              once = s.is_list.once;
              ends = s.is_list.ends;
              count = s.is_list.count;
            };
            is_pool = s.is_pool;
            unused = s.unused;
            others_used = s.others_used;
            separate = s.separate;
            holds = s.holds ∙ sym same;
          },
          omega arith,
          (refl, refl),
        ),
      )
remove_from-Removed (suc fuel) v current h l bs (e ∷ es) os fs vs s out c k =
    let full : (current == 0) ≡ false = ground (arith, c) in
    elim (Bool-cases (h.item current == v)) [
      | inl hit ↦
          let hit_e : h.item e ≡ v = ap h.item (sym c.0) ∙ (==_iff _ _).0 hit in
          let out_e : has (h.item e) (values h.item bs) ≡ false = rw hit_e out in
          rw (full, hit)
            (subst (λ t. Removed v h l os vs (some (unlink (last_of 0 bs) t h (enter l)))) (sym c.0)
              (subst (λ w. Removed w h l os vs (some (unlink (last_of 0 bs) e h (enter l)))) hit_e
                (found h l e bs es os fs vs s out_e)))
      | inr miss ↦
          let miss_e : (h.item e == v) ≡ false = ap (λ t. h.item t == v) (sym c.0) ∙ miss in
          let rest =
            remove_from-Removed fuel v (h.next current) h l (bs ++ e ∷ []) es os fs vs
              (subst (λ xs. Stores h l xs os fs vs) (sym (append-snoc e bs es)) s)
              (values-snoc h.item e v bs out miss_e)
              (subst (λ t. Chain h.next (h.next t) es) (sym c.0) c.2) (omega (arith, k)) in
          rw (full, miss)
            (subst (λ t. Removed v h l os vs (remove_from fuel t (h.next current) v h (enter l)))
              (last_of-append 0 e bs ∙ sym c.0) rest)
    ]

-- myrefl_list_remove returns, given more rounds than elements, and takes the first occurrence of its
-- value from the values that the list stands for; its answer is whether there was one. The element
-- is freed, the critical section left, and the elements of all other lists keep their fields.
pub list_remove-Removed :
    (fuel v : ℕ) (h : Heap) (l : Handle) (es os fs vs : List ℕ)
    → Stores h l es os fs vs
    → length es < fuel
    → Removed v h l os vs (list_remove fuel v h l)
unfolding list_remove values has last_of
list_remove-Removed fuel v h l es os fs vs s k =
    let valid = validate_list-true h.next l es s.is_list in
    rw valid (remove_from-Removed fuel v l.head h l [] es os fs vs s refl s.is_list.chain k)

find_from-has :
    (fuel v current : ℕ) (h : Heap) (es : List ℕ)
    → Chain h.next current es
    → length es < fuel
    → find_from fuel h current v ≡ some (has v (values h.item es))
unfolding find_from values has
find_from-has zero v current h es c k = absurd (omega (arith, k))
find_from-has (suc fuel) v current h [] c k = ground (arith, c)
find_from-has (suc fuel) v current h (e ∷ es) c k =
    let full : (current == 0) ≡ false = ground (arith, c) in
    let rest =
      find_from-has fuel v (h.next current) h es
        (subst (λ t. Chain h.next (h.next t) es) (sym c.0) c.2) (omega (arith, k)) in
    elim (Bool-cases (h.item current == v)) [
      | inl hit ↦ ground (arith, full, hit, c, rest)
      | inr miss ↦ ground (arith, full, miss, c, rest)
    ]

-- myrefl_list_find returns, given more rounds than elements, and answers whether its value is among
-- those that the list stands for.
pub list_find-has :
    (fuel v : ℕ) (h : Heap) (l : Handle) (es os fs vs : List ℕ)
    → Stores h l es os fs vs
    → length es < fuel
    → list_find fuel h l v ≡ some (has v vs)
list_find-has fuel v h l es os fs vs s k =
    find_from-has fuel v l.head h es s.is_list.chain k ∙ ap (λ ws. some (has v ws)) s.holds
