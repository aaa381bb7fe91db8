-- ===== src/Util/Free.antt =====
-- `myrefl_list_free` of src/myrefl_util.c: where the elements of a list go.
use myreflection.Common.{
  ℕ, zero, suc, ◌<◌, ◌≡◌, refl, sym, subst, ◌∙◌, true, false, ◌||◌, Option, some, List, [], ◌∷◌,
  arith, ◌==◌, has, Distinct, length,
}
use myreflection.Util.{Heap, Handle, free_list_element, free_from, list_free}
use myreflection.Util.Chain.{Chain, IsPool, Apart, Chain-update, values-update}
use myreflection.Util.Stores.{Stores, Untouched, Untouched-trans}

-- The free list has these elements and those that it had, and the others keep their fields.
abbrev Freed : Heap → (es os fs : List ℕ) → Option Heap → Type 0
Freed h es os fs o =
    (h' : Heap) × (fs' : List ℕ) × (o ≡ some h')
    × IsPool h' fs'
    × ((a : ℕ) → has a fs' ≡ (has a es || has a fs))
    × Untouched os h h'

free_from-Freed :
    (fuel p : ℕ) (h : Heap) (es os fs : List ℕ)
    → Chain h.next p es
    → Distinct es
    → IsPool h fs
    → Apart es fs
    → Apart es os
    → length es < fuel
    → Freed h es os fs (free_from fuel p h)
unfolding free_from has
free_from-Freed zero p h es os fs c d pool apart away k = absurd (omega (arith, k))
free_from-Freed (suc fuel) p h [] os fs c d pool apart away k =
    let empty : (p == 0) ≡ true = ground (arith, c) in
    rw empty (h, fs, refl, pool, λ a. refl, (refl, refl))
free_from-Freed (suc fuel) p h (e ∷ es) os fs c d pool apart away k =
    let full : (p == 0) ≡ false = ground (arith, c) in
    let h1 = free_list_element e h in
    let now : h1.next e ≡ h.free = ground arith in
    let unused = apart e (ground arith) in
    let off_os = away e (ground arith) in
    let (h2, fs2, same, pool2, members, untouched) =
      free_from-Freed fuel (h.next e) h1 es os (e ∷ fs)
        (Chain-update h.next e h.free (h.next e) es d.0 c.2) d.1
        (record {
          chain = (refl, c.1, rw now (Chain-update h.next e h.free h.free fs unused pool.chain));
          once = (unused, pool.once);
        })
        (λ a m. ground (arith, apart a, d.0, m)) (λ a m. away a (ground (arith, m)))
        (omega (arith, k)) in
    let untouched1 : Untouched os h h1 = (values-update h.next e h.free os off_os, refl) in
    rw full (
      h2,
      fs2,
      subst (λ t. free_from fuel (h.next t) (free_list_element t h) ≡ some h2) (sym c.0) same,
      pool2,
      λ a. members a ∙ ground arith,
      Untouched-trans os h h1 h2 untouched1 untouched,
    )

-- myrefl_list_free returns, given more rounds than elements, and has then put each element of the
-- list on the free list, which keeps those that it had; the elements of all other lists keep their
-- fields.
list_free-Freed :
    (fuel : ℕ) (h : Heap) (l : Handle) (es os fs vs : List ℕ)
    → Stores h l es os fs vs
    → length es < fuel
    → Freed h es os fs (list_free fuel h l)
unfolding list_free
list_free-Freed fuel h l es os fs vs s k =
    free_from-Freed fuel l.head h es os fs s.is_list.chain s.is_list.once s.is_pool s.unused
      s.separate k
