-- ===== src/Util/Stores.antt =====
-- The sequence of values that a list of src/myrefl_util.c stands for, and what an operation may touch.
use myreflection.Common.{
  ℕ, ◌≡◌, ◌∙◌, true, false, inl, inr, List, ◌++◌, arith, ◌==◌, has, has-append, Bool-cases,
}
use myreflection.Util.{Heap, Handle}
use myreflection.Util.Chain.{IsList, IsPool, Apart, values, Chain-same, values-same}

-- A list with these elements and values on a heap, apart from the free list and from the elements of
-- others.
pub record Stores (h : Heap) (l : Handle) (es others fs vs : List ℕ) : Type 0 where
  pub is_list : IsList h.next l es
  pub is_pool : IsPool h fs
  pub unused : Apart es fs
  pub others_used : Apart others fs
  pub separate : Apart es others
  pub holds : values h.item es ≡ vs

-- The elements of others keep both of their fields.
abbrev pub Untouched : List ℕ → Heap → Heap → Type 0
Untouched os h h' = (values h'.next os ≡ values h.next os) × (values h'.item os ≡ values h.item os)

-- A list with these values after an operation, out of the critical section again.
abbrev pub Becomes : Heap → Handle → List ℕ → List ℕ → Heap × Handle → Type 0
Becomes h l os vs (h', l') =
    (es : List ℕ) × (fs : List ℕ) × Stores h' l' es os fs vs
    × (l'.locks ≡ l.locks)
    × Untouched os h h'

pub Apart-sym : (es gs : List ℕ) → Apart es gs → Apart gs es
Apart-sym es gs apart a m = elim (Bool-cases (has a es)) [
  | inl e ↦ absurd (ground (arith, apart a e, m))
  | inr e ↦ e
]

pub not_at : (e a : ℕ) (os : List ℕ) → has e os ≡ false → has a os ≡ true → (a == e) ≡ false
not_at e a os out m = elim (Bool-cases (a == e)) [
  | inl same ↦ absurd (ground (arith, same, out, m))
  | inr other ↦ other
]

-- A list on a heap where its elements keep their fields.
pub Stores-kept :
    (h h' : Heap) (l : Handle) (es os fs fs' vs : List ℕ)
    → Stores h l es os fs vs
    → IsPool h' fs'
    → Apart (es ++ os) fs'
    → ((a : ℕ) → has a (es ++ os) ≡ true → (h'.next a ≡ h.next a) × (h'.item a ≡ h.item a))
    → Stores h' l es os fs' vs × Untouched os h h'
Stores-kept h h' l es os fs fs' vs s pool apart kept =
    let in_es : (a : ℕ) → has a es ≡ true → has a (es ++ os) ≡ true =
      λ a m. ground (arith, has-append a es os, m) in
    let in_os : (a : ℕ) → has a os ≡ true → has a (es ++ os) ≡ true =
      λ a m. ground (arith, has-append a es os, m) in
    (
      record {
        is_list = record {
          chain =
              Chain-same h'.next h.next l.head es (λ a m. (kept a (in_es a m)).0) s.is_list.chain;
          once = s.is_list.once;
          ends = s.is_list.ends;
          count = s.is_list.count;
        };
        is_pool = pool;
        unused = λ a m. apart a (in_es a m);
        others_used = λ a m. apart a (in_os a m);
        separate = s.separate;
        holds = values-same h'.item h.item es (λ a m. (kept a (in_es a m)).1) ∙ s.holds;
      },
      (
        values-same h'.next h.next os (λ a m. (kept a (in_os a m)).0),
        values-same h'.item h.item os (λ a m. (kept a (in_os a m)).1),
      ),
    )

pub Untouched-trans :
    (os : List ℕ) (h h' h'' : Heap) → Untouched os h h' → Untouched os h' h'' → Untouched os h h''
Untouched-trans os h h' h'' u w = (w.0 ∙ u.0, w.1 ∙ u.1)
