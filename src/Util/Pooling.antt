-- ===== src/Util/Pooling.antt =====
-- The pool of free elements: `new_list_element` of src/myrefl_util.c and the blocks that it threads.
use myreflection.Common.{
  ℕ, zero, suc, ◌+◌, ◌≤◌, ◌≡◌, ◌≢◌, refl, ◌∙◌, Bool, true, false, ◌||◌, ◌⊎◌, inl, inr, List, [],
  ◌∷◌, arith, ◌==◌, update, has, ltb, leb, Option, none, some,
}
use myreflection.Util.{Heap, thread_block, cleared, refill, take_free, new_list_element}
use myreflection.Util.Chain.{Chain, IsPool, Apart, Chain-update}

-- The address does not lie in the block of fifty elements.
abbrev pub outside : ℕ → ℕ → Bool
outside block a = ltb a block || leb (block + 50) a

-- What calloc returns is not NULL, and apart from the elements in use.
abbrev pub IsFresh : Option ℕ → List ℕ → Type 0
IsFresh none es = Unit
IsFresh (some block) es = (block ≢ 0) × ((a : ℕ) → has a es ≡ true → outside block a ≡ true)

-- The free list after the rounds.
added : (rounds block i : ℕ) → List ℕ → List ℕ
added zero block i fs = fs
added (suc k) block i fs = added k block (i + 1) ((block + i) ∷ fs)

thread_block-IsPool :
    (k block i : ℕ) (h : Heap) (fs : List ℕ)
    → block ≢ 0
    → ((j : ℕ) → i ≤ j → has (block + j) fs ≡ false)
    → IsPool h fs
    → IsPool (thread_block k block i h) (added k block i fs)
unfolding thread_block added has
thread_block-IsPool zero block i h fs ne out p = p
thread_block-IsPool (suc k) block i h fs ne out p =
    thread_block-IsPool k block (i + 1) _ ((block + i) ∷ fs) ne (λ j le. ground (arith, out j))
      (record {
        chain =
            let same : update h.next (block + i) h.free (block + i) ≡ h.free = ground arith in
            (
              refl,
              omega (arith, ne),
              rw same
                  (Chain-update h.next (block + i) h.free h.free fs (out i (omega arith)) p.chain),
            );
        once = (out i (omega arith), p.once);
      })

-- The loop writes only within its block.
thread_block-outside :
    (k block i a : ℕ) (h : Heap)
    → k + i ≤ 50
    → outside block a ≡ true
    → ((thread_block k block i h).next a ≡ h.next a)
      × ((thread_block k block i h).item a ≡ h.item a)
unfolding thread_block
thread_block-outside zero block i a h le out = (refl, refl)
thread_block-outside (suc k) block i a h le out =
    let (n, v) =
      thread_block-outside k block (i + 1) a
        (record h { next = update h.next (block + i) h.free; free = block + i }) (omega (arith, le))
        out in
    (ground (arith, n, le, out), v)

cleared-outside :
    (k block a : ℕ) (f : ℕ → ℕ)
    → ltb a block || leb (block + k) a ≡ true
    → cleared k block f a ≡ f a
unfolding cleared
cleared-outside zero block a f out = refl
cleared-outside (suc k) block a f out =
    ground (arith, cleared-outside k (block + 1) a (update f block 0), out)

has-added :
    (k block i a : ℕ) (fs : List ℕ)
    → k + i ≤ 50
    → outside block a ≡ true
    → has a (added k block i fs) ≡ has a fs
unfolding added has
has-added zero block i a fs le out = refl
has-added (suc k) block i a fs le out =
    has-added k block (i + 1) a _ (omega (arith, le)) out ∙ ground (arith, out, le)

-- A call for an element: it leaves the lists alone, and gives NULL or an element of none of them.
pub record Got (h : Heap) (es : List ℕ) (e : ℕ) (h' : Heap) (fs : List ℕ) : Type 0 where
  pub pool : IsPool h' fs
  pub apart : Apart es fs
  pub kept : (a : ℕ) → has a es ≡ true → (h'.next a ≡ h.next a) × (h'.item a ≡ h.item a)
  pub fresh : (e ≡ 0) ⊎ ((e ≢ 0) × (has e es ≡ false) × (has e fs ≡ false))

take_free-Got :
    (h : Heap) (es fs : List ℕ)
    → IsPool h fs
    → Apart es fs
    → (fs' : List ℕ) × Got h es (take_free h).0 (take_free h).1 fs'
unfolding take_free has
take_free-Got h es [] p apart =
    let empty : (h.free == 0) ≡ true = ground (arith, p.chain) in
    rw empty ([], record { pool = p; apart = apart; kept = λ a m. (refl, refl); fresh = inl refl })
take_free-Got h es (f ∷ fs) p apart =
    let full : (h.free == 0) ≡ false = ground (arith, p.chain) in
    let free : h.free ≡ f = p.chain.0 in
    let unused : has h.free fs ≡ false = rw free p.once.0 in
    let chain : Chain h.next (h.next h.free) fs = rw free p.chain.2 in
    rw full (
      fs,
      record {
        pool = record {
          chain = Chain-update h.next h.free 0 (h.next h.free) fs unused chain;
          once = p.once.1;
        };
        apart = λ a m. ground (arith, apart a m);
        kept = λ a m. (ground (arith, apart a m, free), ground (arith, apart a m, free));
        fresh = inr (ground (arith, full), ground (arith, free, apart h.free), unused);
      },
    )

refill-IsPool :
    (block : Option ℕ) (h : Heap) (es : List ℕ)
    → IsFresh block es
    → IsPool h []
    → (fs : List ℕ) × IsPool (refill block h) fs
      × Apart es fs
      × ((a : ℕ)
          → has a es ≡ true
          → ((refill block h).next a ≡ h.next a) × ((refill block h).item a ≡ h.item a))
unfolding refill has
refill-IsPool none h es fresh p = ([], p, λ a m. refl, λ a m. (refl, refl))
refill-IsPool (some block) h es (ne, fresh) p =
    let h' = record h { next = cleared 50 block h.next; item = cleared 50 block h.item } in
    (
      added 50 block 0 [],
      thread_block-IsPool 50 block 0 h' [] ne (λ j le. refl)
          (record { chain = p.chain; once = tt }),
      λ a m. has-added 50 block 0 a [] (omega arith) (fresh a m),
      λ a m.
          let (n, v) = thread_block-outside 50 block 0 a h' (omega arith) (fresh a m) in
          (
            n ∙ cleared-outside 50 block a h.next (fresh a m),
            v ∙ cleared-outside 50 block a h.item (fresh a m),
          ),
    )

-- new_list_element leaves the elements of every list alone, and gives NULL or an element that is
-- neither on a list nor free any more; the free list stays one.
pub new_list_element-Got :
    (block : Option ℕ) (h : Heap) (es fs : List ℕ)
    → IsPool h fs
    → Apart es fs
    → IsFresh block es
    → (fs' : List ℕ) × Got h es (new_list_element block h).0 (new_list_element block h).1 fs'
unfolding new_list_element
new_list_element-Got block h es [] p apart fresh =
    let empty : (h.free == 0) ≡ true = ground (arith, p.chain) in
    let (gs, pool, apart', kept) = refill-IsPool block h es fresh p in
    let (fs', got) = take_free-Got (refill block h) es gs pool apart' in
    rw empty (
      fs',
      record {
        pool = got.pool;
        apart = got.apart;
        kept = λ a m. ((got.kept a m).0 ∙ (kept a m).0, (got.kept a m).1 ∙ (kept a m).1);
        fresh = got.fresh;
      },
    )
new_list_element-Got block h es (f ∷ fs) p apart fresh =
    let full : (h.free == 0) ≡ false = ground (arith, p.chain) in
    rw full (take_free-Got h es (f ∷ fs) p apart)
