-- ===== src/Sequence/Rule/Bits.antt =====
-- The history bits of an N_IN_M rule, read as a list of Booleans: what `bit_count` and the masks of
-- `seq_rule_run` do to them.
use myreflection.Common.{
  Bool-cases, inl, inr, ℕ, zero, suc, ◌+◌, ◌*◌, ◌/◌, ◌%◌, ◌<◌, ◌≡◌, refl, sym, ap, ◌∙◌, Bool, true,
  false, ◌&&◌, List, [], ◌∷◌, ◌++◌, arith, ltb, ◌==◌, ==_iff, if◌then◌else◌, length, get_or, set,
  replicate, length-set,
}
use myreflection.Types.{Result, pass, fail, is_fail}
use myreflection.Sequence.Rule.{bit_count, sum_bits, mark, record_bit}

-- The lowest k bits of a number, the lowest first.
unfoldable pub low_bits : ℕ → ℕ → List Bool
low_bits zero b = []
low_bits (suc k) b = (b % 2 == 1) ∷ low_bits k (b / 2)

-- The bits of a run of bytes.
unfoldable pub bits_of : List ℕ → List Bool
bits_of [] = []
bits_of (b ∷ bs) = low_bits 8 b ++ bits_of bs

-- How many of the Booleans are true.
unfoldable pub trues : List Bool → ℕ
trues [] = 0
trues (x ∷ xs) = if x then trues xs + 1 else trues xs

trues-append : (xs ys : List Bool) → trues (xs ++ ys) ≡ trues xs + trues ys
unfolding trues
trues-append [] ys = omega arith
trues-append (x ∷ xs) ys = ground (arith, trues-append xs ys)

same_bits : List Bool → List Bool → Bool
same_bits [] [] = true
same_bits (true ∷ xs) (true ∷ ys) = same_bits xs ys
same_bits (false ∷ xs) (false ∷ ys) = same_bits xs ys
same_bits _ _ = false

same_bits_sound : (xs ys : List Bool) → same_bits xs ys ≡ true → xs ≡ ys
unfolding same_bits
same_bits_sound [] [] h = refl
same_bits_sound [] (y ∷ ys) h = cc
same_bits_sound (true ∷ xs) [] h = cc
same_bits_sound (false ∷ xs) [] h = cc
same_bits_sound (true ∷ xs) (true ∷ ys) h = cc (same_bits_sound xs ys h)
same_bits_sound (true ∷ xs) (false ∷ ys) h = cc
same_bits_sound (false ∷ xs) (true ∷ ys) h = cc
same_bits_sound (false ∷ xs) (false ∷ ys) h = cc (same_bits_sound xs ys h)

-- Does the table have no wrong entry in its first `rows`?
rows_right : (ℕ → Bool) → ℕ → Bool
rows_right row zero = true
rows_right row (suc rows) = if row rows then rows_right row rows else false

row_right : (row : ℕ → Bool) (rows b : ℕ) → b < rows → rows_right row rows ≡ true → row b ≡ true
unfolding rows_right
row_right row zero b low right = absurd (omega arith)
row_right row (suc rows) b low right = elim (Bool-cases (b == rows)) [
  | inl last ↦ ground (arith, last, right)
  | inr other ↦ row_right row rows b (ground (arith, other)) (ground (arith, right))
]

abbrev mark_right : Result → ℕ → ℕ → Bool
mark_right r k b =
    same_bits (low_bits 8 (mark r k b)) (set (low_bits 8 b) k (is_fail r)) && ltb (mark r k b) 256

mark_table :
    (rows_right (λ b. rows_right (λ k. mark_right pass k b) 8) 256 ≡ true)
    × (rows_right (λ b. rows_right (λ k. mark_right fail k b) 8) 256 ≡ true)
unfolding rows_right mark same_bits low_bits
mark_table = (refl, refl)

count_table : rows_right (λ b. bit_count true b == trues (low_bits 8 b)) 256 ≡ true
unfolding rows_right bit_count trues low_bits
count_table = refl

-- The lookup table holds the number of bits that are set.
bit_count-trues : (b : ℕ) → b < 256 → bit_count true b ≡ trues (low_bits 8 b)
bit_count-trues b h = (==_iff _ _).0 (row_right _ 256 b h count_table)

-- A result that an N_IN_M rule records.
abbrev pub IsVerdict : Result → Type 0
IsVerdict pass = Unit
IsVerdict fail = Unit
IsVerdict _ = ⊥

mark_right_all : (r : Result) (k b : ℕ) → IsVerdict r → k < 8 → b < 256 → mark_right r k b ≡ true
mark_right_all pass k b v hk hb = row_right _ 8 k hk (row_right _ 256 b hb mark_table.0)
mark_right_all fail k b v hk hb = row_right _ 8 k hk (row_right _ 256 b hb mark_table.1)
mark_right_all _ k b v hk hb = absurd v

-- The masks set or clear one bit of a byte.
mark_bits :
    (r : Result) (k b : ℕ)
    → IsVerdict r
    → k < 8
    → b < 256
    → (low_bits 8 (mark r k b) ≡ set (low_bits 8 b) k (is_fail r)) × (mark r k b < 256)
mark_bits r k b v hk hb =
    let t = mark_right_all r k b v hk hb in
    (same_bits_sound _ _ (ground (arith, t)), ground (arith, t))

-- Every element is a byte.
abbrev pub IsBytes : List ℕ → Type 0
IsBytes [] = Unit
IsBytes (b ∷ bs) = (b < 256) × IsBytes bs

pub length-bits_of : (bs : List ℕ) → length (bits_of bs) ≡ 8 * length bs
unfolding bits_of low_bits
length-bits_of [] = refl
length-bits_of (b ∷ bs) = omega (arith, length-bits_of bs)

-- `seq_rule_run` adds up the bits that are set.
pub sum_bits-trues : (bs : List ℕ) → IsBytes bs → sum_bits true bs ≡ trues (bits_of bs)
unfolding sum_bits bits_of trues
sum_bits-trues [] h = refl
sum_bits-trues (b ∷ bs) h =
    rw (bit_count-trues b h.0, sum_bits-trues bs h.1)
      (sym (trues-append (low_bits 8 b) (bits_of bs)))

set-append_left :
    (xs ys : List Bool) (i : ℕ) (v : Bool) → i < length xs → set (xs ++ ys) i v ≡ set xs i v ++ ys
set-append_left [] ys i v h = elim h [ ]
set-append_left (x ∷ xs) ys zero v h = refl
set-append_left (x ∷ xs) ys (suc i) v h = ap (◌∷◌ x) (set-append_left xs ys i v (omega arith))

set-append_right :
    (xs ys : List Bool) (i j : ℕ) (v : Bool)
    → j ≡ length xs + i
    → set (xs ++ ys) j v ≡ xs ++ set ys i v
set-append_right [] ys i j v h = let e : j ≡ i = omega arith in rw e
set-append_right (x ∷ xs) ys i zero v h = absurd (omega arith)
set-append_right (x ∷ xs) ys i (suc j) v h = ap (◌∷◌ x) (set-append_right xs ys i j v (omega arith))

mark_byte :
    (r : Result) (i k : ℕ) (bs : List ℕ)
    → IsVerdict r
    → IsBytes bs
    → k < 8
    → i < length bs
    → let marked = set bs i (mark r k (get_or bs i 0)) in
      (bits_of marked ≡ set (bits_of bs) (8 * i + k) (is_fail r)) × IsBytes marked
unfolding bits_of
mark_byte r i k [] v h hk hi = elim hi [ ]
mark_byte r zero k (b ∷ bs) v h hk hi =
    let (bits, small) = mark_bits r k b v hk h.0 in
    let e : 8 * 0 + k ≡ k = omega arith in
    (
      rw (bits, e)
          (sym (set-append_left (low_bits 8 b) (bits_of bs) k (is_fail r) (unfold low_bits in hk))),
      (small, h.1),
    )
mark_byte r (suc i) k (b ∷ bs) v h hk hi =
    let (bits, bytes) = mark_byte r i k bs v h.1 hk (omega arith) in
    (
      rw bits (
          sym (
            set-append_right (low_bits 8 b) (bits_of bs) (8 * i + k) (8 * suc i + k) (is_fail r)
              (unfold low_bits in omega arith))),
      (h.0, bytes),
    )

-- Recording a result sets or clears the bit at the position, and no other.
pub record_bit_bits :
    (r : Result) (p : ℕ) (bs : List ℕ)
    → IsVerdict r
    → IsBytes bs
    → p < 8 * length bs
    → (bits_of (record_bit r p bs) ≡ set (bits_of bs) p (is_fail r)) × IsBytes (record_bit r p bs)
unfolding record_bit
record_bit_bits r p bs v h hp =
    let (bits, bytes) = mark_byte r (p / 8) (p % 8) bs v h (omega arith) (omega arith) in
    let e : 8 * (p / 8) + p % 8 ≡ p = omega arith in
    (bits ∙ ap (λ q. set (bits_of bs) q (is_fail r)) e, bytes)

pub length-record_bit : (r : Result) (p : ℕ) (bs : List ℕ) → length (record_bit r p bs) ≡ length bs
unfolding record_bit
length-record_bit r p bs = length-set bs (p / 8) (mark r (p % 8) (get_or bs (p / 8) 0))

bits_of-zeros : (n i : ℕ) → get_or (bits_of (replicate n 0)) i false ≡ false
unfolding bits_of low_bits
bits_of-zeros zero i = refl
bits_of-zeros (suc n) (suc (suc (suc (suc (suc (suc (suc (suc i)))))))) = bits_of-zeros n i
bits_of-zeros (suc n) zero = refl
bits_of-zeros (suc n) (suc zero) = refl
bits_of-zeros (suc n) (suc (suc zero)) = refl
bits_of-zeros (suc n) (suc (suc (suc zero))) = refl
bits_of-zeros (suc n) (suc (suc (suc (suc zero)))) = refl
bits_of-zeros (suc n) (suc (suc (suc (suc (suc zero))))) = refl
bits_of-zeros (suc n) (suc (suc (suc (suc (suc (suc zero)))))) = refl
bits_of-zeros (suc n) (suc (suc (suc (suc (suc (suc (suc zero))))))) = refl

trues-zeros : (n : ℕ) → trues (bits_of (replicate n 0)) ≡ 0
unfolding trues bits_of low_bits
trues-zeros zero = refl
trues-zeros (suc n) = trues-zeros n

IsBytes-zeros : (n : ℕ) → IsBytes (replicate n 0)
IsBytes-zeros zero = tt
IsBytes-zeros (suc n) = (omega arith, IsBytes-zeros n)

-- A fresh history: all bits are clear.
pub zeros_clear :
    (n : ℕ)
    → IsBytes (replicate n 0)
      × (trues (bits_of (replicate n 0)) ≡ 0)
      × ((i : ℕ) → get_or (bits_of (replicate n 0)) i false ≡ false)
zeros_clear n = (IsBytes-zeros n, trues-zeros n, bits_of-zeros n)

abbrev pub one_if : Bool → ℕ
one_if b = if b then 1 else 0

-- A write to one place changes the number of trues by what stood there and what now does.
pub trues-set :
    (xs : List Bool) (i : ℕ) (v : Bool)
    → i < length xs
    → trues (set xs i v) + one_if (get_or xs i false) ≡ trues xs + one_if v
unfolding trues
trues-set [] i v h = elim h [ ]
trues-set (x ∷ xs) zero v h = ground arith
trues-set (x ∷ xs) (suc i) v h = ground (arith, trues-set xs i v)
