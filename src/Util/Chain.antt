-- ===== src/Util/Chain.antt =====
-- Chains of elements on the heap, and the lists that handles stand for.
use myreflection.Common.{
  ℕ, ◌≡◌, ◌≢◌, refl, true, false, ◌⊎◌, inl, inr, List, [], ◌∷◌, ◌++◌, arith, ◌==◌, update, has,
  Distinct, length,
}
use myreflection.Util.{Heap, Handle, validate_list}

-- From this pointer, the next pointers lead through these elements to NULL.
abbrev pub Chain : (ℕ → ℕ) → ℕ → List ℕ → Type 0
Chain next p [] = p ≡ 0
Chain next p (a ∷ es) = (p ≡ a) × (a ≢ 0) × Chain next (next a) es

unfoldable pub last_of : ℕ → List ℕ → ℕ
last_of d [] = d
last_of d (a ∷ es) = last_of a es

-- A handle and the elements of its list.
pub record IsList (next : ℕ → ℕ) (l : Handle) (es : List ℕ) : Type 0 where
  pub chain : Chain next l.head es
  pub once : Distinct es
  pub ends : l.tail ≡ last_of 0 es
  pub count : l.num_elements ≡ length es

-- The free list and its elements.
pub record IsPool (h : Heap) (fs : List ℕ) : Type 0 where
  pub chain : Chain h.next h.free fs
  pub once : Distinct fs

abbrev pub Apart : List ℕ → List ℕ → Type 0
Apart es bs = (a : ℕ) → has a es ≡ true → has a bs ≡ false

-- What the elements hold.
unfoldable pub values : (ℕ → ℕ) → List ℕ → List ℕ
values item [] = []
values item (a ∷ es) = item a ∷ values item es

pub Chain-update :
    (next : ℕ → ℕ) (e x p : ℕ) (es : List ℕ)
    → has e es ≡ false
    → Chain next p es
    → Chain (update next e x) p es
unfolding has
Chain-update next e x p [] h c = c
Chain-update next e x p (a ∷ es) h c =
    let rest = Chain-update next e x (next a) es (ground (arith, h)) c.2 in
    let same : update next e x a ≡ next a = ground (arith, h) in (c.0, c.1, rw same rest)

pub values-update :
    (item : ℕ → ℕ) (e x : ℕ) (es : List ℕ)
    → has e es ≡ false
    → values (update item e x) es ≡ values item es
unfolding has values
values-update item e x [] h = refl
values-update item e x (a ∷ es) h = ground (arith, values-update item e x es)

pub last_of-has : (d : ℕ) (es : List ℕ) → (last_of d es ≡ d) ⊎ (has (last_of d es) es ≡ true)
unfolding last_of has
last_of-has d [] = inl refl
last_of-has d (a ∷ es) = elim (last_of-has a es) [
  | inl e ↦ inr (ground (arith, e))
  | inr m ↦ inr (ground (arith, m))
]

-- The chain ends behind its last element.
pub next-last_of :
    (next : ℕ → ℕ) (p a : ℕ) (es : List ℕ) → Chain next p (a ∷ es) → next (last_of a es) ≡ 0
unfolding last_of
next-last_of next p a [] c = c.2
next-last_of next p a (b ∷ bs) c = next-last_of next (next a) b bs c.2

pub last_of-ne : (next : ℕ → ℕ) (p a : ℕ) (es : List ℕ) → Chain next p (a ∷ es) → last_of a es ≢ 0
unfolding last_of
last_of-ne next p a [] c = c.1
last_of-ne next p a (b ∷ bs) c = last_of-ne next (next a) b bs c.2

-- A handle that stands for a list is valid.
pub validate_list-true :
    (next : ℕ → ℕ) (l : Handle) (es : List ℕ) → IsList next l es → validate_list next l ≡ true
unfolding last_of
validate_list-true next l [] i = ground (arith, i.chain, i.ends, i.count)
validate_list-true next l (a ∷ []) i = ground (arith, i.chain, i.ends, i.count)
validate_list-true next l (a ∷ b ∷ bs) i = ground (
  arith,
  i.chain,
  i.ends,
  i.count,
  next-last_of next l.head a (b ∷ bs) i.chain,
  last_of-ne next l.head a (b ∷ bs) i.chain,
)

pub last-ne : (b a : ℕ) (es : List ℕ) → has b (a ∷ es) ≡ false → (b == last_of a es) ≡ false
unfolding last_of has
last-ne b a [] out = ground (arith, out)
last-ne b a (c ∷ es) out = last-ne b c es (ground (arith, out))

-- The chain up to an element that is made to lead to another one.
pub Chain-splice :
    (next : ℕ → ℕ) (p b : ℕ) (bs rest : List ℕ) (x : ℕ) (rest' : List ℕ)
    → Chain next p ((b ∷ bs) ++ rest)
    → Distinct (b ∷ bs)
    → has (last_of b bs) rest' ≡ false
    → Chain next x rest'
    → Chain (update next (last_of b bs) x) p ((b ∷ bs) ++ rest')
unfolding last_of
Chain-splice next p b [] rest x rest' c d out c' =
    let now : update next b x b ≡ x = ground arith in
    (c.0, c.1, rw now (Chain-update next b x x rest' out c'))
Chain-splice next p b (a ∷ es) rest x rest' c d out c' =
    let ne : (b == last_of a es) ≡ false = last-ne b a es d.0 in
    (c.0, c.1, rw ne (Chain-splice next (next b) a es rest x rest' c.2 d.1 out c'))

pub values-same :
    (f g : ℕ → ℕ) (es : List ℕ)
    → ((a : ℕ) → has a es ≡ true → f a ≡ g a)
    → values f es ≡ values g es
unfolding values has
values-same f g [] h = refl
values-same f g (a ∷ es) h =
    let first : f a ≡ g a = h a (ground arith) in
    rw (first, values-same f g es (λ b m. h b (ground (arith, m)))) refl

pub Chain-same :
    (f g : ℕ → ℕ) (p : ℕ) (es : List ℕ)
    → ((a : ℕ) → has a es ≡ true → f a ≡ g a)
    → Chain g p es
    → Chain f p es
unfolding has
Chain-same f g p [] h c = c
Chain-same f g p (a ∷ es) h c =
    let first : f a ≡ g a = h a (ground arith) in
    (c.0, c.1, rw first (Chain-same f g (g a) es (λ b m. h b (ground (arith, m))) c.2))

pub values-append : (f : ℕ → ℕ) (es gs : List ℕ) → values f (es ++ gs) ≡ values f es ++ values f gs
unfolding values
values-append f [] gs = refl
values-append f (a ∷ es) gs = rw (values-append f es gs) refl

pub last_of-append : (d e : ℕ) (es : List ℕ) → last_of d (es ++ e ∷ []) ≡ e
unfolding last_of
last_of-append d e [] = refl
last_of-append d e (a ∷ es) = last_of-append a e es

pub Chain-suffix :
    (next : ℕ → ℕ) (p a : ℕ) (bs es : List ℕ)
    → Chain next p (bs ++ a ∷ es)
    → (a ≢ 0) × Chain next (next a) es
Chain-suffix next p a [] es c = (c.1, c.2)
Chain-suffix next p a (b ∷ bs) es c = Chain-suffix next (next b) a bs es c.2

pub last_of-append_cons : (d b : ℕ) (es bs : List ℕ) → last_of d (es ++ b ∷ bs) ≡ last_of b bs
unfolding last_of
last_of-append_cons d b [] bs = refl
last_of-append_cons d b (a ∷ es) bs = last_of-append_cons a b es bs
