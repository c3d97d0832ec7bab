-- ===== src/Cache/Memory.antt =====
-- sphere_prac/p5: the mapped file as a memory of bytes, with the C functions on it.
use technosphere.Common.{
  ℕ, zero, suc, ◌+◌, ◌-◌, ◌*◌, ◌/◌, ◌%◌, ◌^◌, ◌≤◌, ◌<◌, ◌≡◌, ◌⊎◌, refl, Bool, true, false, ◌&&◌, [],
  ◌∷◌, arith, ltb, leb, ◌==◌, if◌then◌else◌, length, get_or,
}
use technosphere.Common.Bytes.{Bytes, NoNul, bytes_eq}

-- An address holds a byte.
abbrev pub Memory : Type 0
Memory = ℕ → ℕ

abbrev pub within : ℕ → ℕ → ℕ → Bool
within a n q = leb a q && ltb q (a + n)

-- `memcpy(a, bs, n)` from a buffer that holds the n bytes `bs`.
unfoldable pub memcpy : ℕ → Bytes → Memory → Memory
memcpy a bs m q = if within a (length bs) q then get_or bs (q - a) 0 else m q

unfoldable pub memset : ℕ → ℕ → ℕ → Memory → Memory
memset a v n m q = if within a n q then v else m q

-- `std::string(a, n)`: n bytes from address a, NULs included.
unfoldable pub read_bytes : Memory → ℕ → ℕ → Bytes
read_bytes m a zero = []
read_bytes m a (suc n) = m a ∷ read_bytes m (a + 1) n

-- `strncmp(a, key.data(), n) == 0`
unfoldable pub strncmp_eq : Memory → ℕ → Bytes → ℕ → Bool
strncmp_eq m a key zero = true
strncmp_eq m a [] (suc n) = m a == 0
strncmp_eq m a (c ∷ cs) (suc n) =
    if m a == c then (if c == 0 then true else strncmp_eq m (a + 1) cs n) else false

-- An `unsigned` in memory, little-endian.
abbrev pub unsigned_bytes : ℕ → Bytes
unsigned_bytes v = (v % 256) ∷ (v / 256 % 256) ∷ (v / 65536 % 256) ∷ (v / 16777216 % 256) ∷ []

unfoldable pub read_unsigned : Memory → ℕ → ℕ
read_unsigned m a = m a + 256 * m (a + 1) + 65536 * m (a + 2) + 16777216 * m (a + 3)

pub memcpy_in :
    (m : Memory) (a i : ℕ) (bs : Bytes) → i < length bs → memcpy a bs m (a + i) ≡ get_or bs i 0
unfolding memcpy
memcpy_in m a i bs h = let e : a + i - a ≡ i = omega arith in rw e (ground arith)

pub memcpy_out :
    (m : Memory) (a q : ℕ) (bs : Bytes) → (q < a) ⊎ (a + length bs ≤ q) → memcpy a bs m q ≡ m q
unfolding memcpy
memcpy_out m a q bs h = ground arith

pub memset_in : (m : Memory) (a v n q : ℕ) → a ≤ q → q < a + n → memset a v n m q ≡ v
unfolding memset
memset_in m a v n q h k = ground arith

pub memset_out : (m : Memory) (a v n q : ℕ) → (q < a) ⊎ (a + n ≤ q) → memset a v n m q ≡ m q
unfolding memset
memset_out m a v n q h = ground arith

unsigned_parts :
    (v : ℕ)
    → v < 2 ^ 32
    → v % 256 + 256 * (v / 256 % 256) + 65536 * (v / 65536 % 256) + 16777216 * (v / 16777216 % 256)
      ≡ v
unsigned_parts v h = omega arith

pub read_unsigned-memcpy :
    (m : Memory) (a v : ℕ) → v < 2 ^ 32 → read_unsigned (memcpy a (unsigned_bytes v) m) a ≡ v
unfolding read_unsigned
read_unsigned-memcpy m a v h =
    let bs = unsigned_bytes v in
    let e : memcpy a bs m a ≡ v % 256 =
      let z : a + 0 ≡ a = omega arith in rw z at (memcpy_in m a 0 bs (omega arith)) in
    omega (
      arith,
      e,
      memcpy_in m a 1 bs (omega arith),
      memcpy_in m a 2 bs (omega arith),
      memcpy_in m a 3 bs (omega arith),
      unsigned_parts v h,
    )

-- The n bytes at a hold `bs`, and zeros behind it.
abbrev pub Stores : Memory → ℕ → ℕ → Bytes → Type 0
Stores m a n bs = (i : ℕ) → i < n → m (a + i) ≡ get_or bs i 0

Stores-head : (m : Memory) (a n : ℕ) (bs : Bytes) → Stores m a (suc n) bs → m a ≡ get_or bs 0 0
Stores-head m a n bs s = let z : a + 0 ≡ a = omega arith in rw z at (s 0 (omega arith))

Stores-tail :
    (m : Memory) (a n b : ℕ) (bs : Bytes) → Stores m a (suc n) (b ∷ bs) → Stores m (a + 1) n bs
Stores-tail m a n b bs s i h =
    let e : a + suc i ≡ a + 1 + i = omega arith in rw e at (s (suc i) (omega arith))

-- A stored key without NULs, shorter than its field, is told from every other such key.
pub strncmp_eq-Stores :
    (m : Memory) (a : ℕ) (k k' : Bytes) (n : ℕ)
    → Stores m a n k
    → NoNul k
    → NoNul k'
    → length k < n
    → length k' < n
    → strncmp_eq m a k' n ≡ bytes_eq k k'
unfolding strncmp_eq bytes_eq
strncmp_eq-Stores m a k k' zero s z z' l l' = absurd (omega arith)
strncmp_eq-Stores m a [] [] (suc n) s z z' l l' = ground (arith, Stores-head m a n [] s)
strncmp_eq-Stores m a [] (c ∷ cs) (suc n) s z z' l l' = ground (arith, Stores-head m a n [] s)
strncmp_eq-Stores m a (b ∷ bs) [] (suc n) s z z' l l' = ground (arith, Stores-head m a n (b ∷ bs) s)
strncmp_eq-Stores m a (b ∷ bs) (c ∷ cs) (suc n) s z z' l l' = ground (
  arith,
  Stores-head m a n (b ∷ bs) s,
  strncmp_eq-Stores m (a + 1) bs cs n (Stores-tail m a n b bs s) z.1 z'.1 (omega arith)
      (omega arith),
)

-- `bs` padded with zeros to n bytes, or cut.
unfoldable pub padded : Bytes → ℕ → Bytes
padded bs zero = []
padded [] (suc n) = 0 ∷ padded [] n
padded (b ∷ bs) (suc n) = b ∷ padded bs n

Stores-nil_tail : (m : Memory) (a n : ℕ) → Stores m a (suc n) [] → Stores m (a + 1) n []
Stores-nil_tail m a n s i h =
    let e : a + suc i ≡ a + 1 + i = omega arith in rw e at (s (suc i) (omega arith))

pub read_bytes-Stores :
    (m : Memory) (a : ℕ) (bs : Bytes) (n : ℕ) → Stores m a n bs → read_bytes m a n ≡ padded bs n
unfolding read_bytes padded
read_bytes-Stores m a bs zero s = refl
read_bytes-Stores m a [] (suc n) s =
    ground
      (arith, Stores-head m a n [] s, read_bytes-Stores m (a + 1) [] n (Stores-nil_tail m a n s))
read_bytes-Stores m a (b ∷ bs) (suc n) s = ground (
  arith,
  Stores-head m a n (b ∷ bs) s,
  read_bytes-Stores m (a + 1) bs n (Stores-tail m a n b bs s),
)

-- Two memories that agree on the n bytes at a.
abbrev pub Agrees : Memory → Memory → ℕ → ℕ → Type 0
Agrees m m' a n = (q : ℕ) → a ≤ q → q < a + n → m' q ≡ m q

pub read_bytes_congr :
    (m m' : Memory) (a n : ℕ) → Agrees m m' a n → read_bytes m' a n ≡ read_bytes m a n
unfolding read_bytes
read_bytes_congr m m' a zero h = refl
read_bytes_congr m m' a (suc n) h = ground (
  arith,
  h a (omega arith) (omega arith),
  read_bytes_congr m m' (a + 1) n (λ q p r. h q (omega arith) (omega arith)),
)

pub strncmp_eq_congr :
    (m m' : Memory) (a : ℕ) (key : Bytes) (n : ℕ)
    → Agrees m m' a n
    → strncmp_eq m' a key n ≡ strncmp_eq m a key n
unfolding strncmp_eq
strncmp_eq_congr m m' a key zero h = refl
strncmp_eq_congr m m' a [] (suc n) h = ground (arith, h a (omega arith) (omega arith))
strncmp_eq_congr m m' a (c ∷ cs) (suc n) h = ground (
  arith,
  h a (omega arith) (omega arith),
  strncmp_eq_congr m m' (a + 1) cs n (λ q p r. h q (omega arith) (omega arith)),
)
