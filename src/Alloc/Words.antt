-- ===== src/Alloc/Words.antt =====
-- 64-bit words in a memory of bytes, and the arithmetic of `size_t`.
use technosphere.Cache.Memory.{Memory, memcpy, memcpy_in, memcpy_out}
use technosphere.Common.Bytes.{Bytes}
use technosphere.Common.{
  ℕ, ◌+◌, ◌-◌, ◌*◌, ◌/◌, ◌%◌, ◌^◌, ◌≤◌, ◌<◌, ◌≡◌, ◌⊎◌, inl, inr, [], ◌∷◌, arith,
}

abbrev pub word_mod : ℕ
word_mod = 2 ^ 64

abbrev pub add64 : ℕ → ℕ → ℕ
add64 a b = (a + b) % word_mod

-- For operands below 2^64.
abbrev pub sub64 : ℕ → ℕ → ℕ
sub64 a b = (a + word_mod - b) % word_mod

-- A word in memory, little-endian.
abbrev pub word_bytes : ℕ → Bytes
word_bytes v =
    (v % 256)
    ∷ (v / 2 ^ 8 % 256)
    ∷ (v / 2 ^ 16 % 256)
    ∷ (v / 2 ^ 24 % 256)
    ∷ (v / 2 ^ 32 % 256)
    ∷ (v / 2 ^ 40 % 256)
    ∷ (v / 2 ^ 48 % 256)
    ∷ (v / 2 ^ 56 % 256)
    ∷ []

unfoldable pub read_word : Memory → ℕ → ℕ
read_word m a =
    m a
    + 2 ^ 8 * m (a + 1)
    + 2 ^ 16 * m (a + 2)
    + 2 ^ 24 * m (a + 3)
    + 2 ^ 32 * m (a + 4)
    + 2 ^ 40 * m (a + 5)
    + 2 ^ 48 * m (a + 6)
    + 2 ^ 56 * m (a + 7)

unfoldable pub write_word : ℕ → ℕ → Memory → Memory
unfolding memcpy
write_word a v = memcpy a (word_bytes v)

pub read_word-write_word :
    (m : Memory) (a v : ℕ) → v < word_mod → read_word (write_word a v m) a ≡ v
unfolding read_word write_word
read_word-write_word m a v h =
    let bs = word_bytes v in
    let z : a + 0 ≡ a = omega arith in
    omega (
      arith,
      rw z at (memcpy_in m a 0 bs (omega arith)),
      memcpy_in m a 1 bs (omega arith),
      memcpy_in m a 2 bs (omega arith),
      memcpy_in m a 3 bs (omega arith),
      memcpy_in m a 4 bs (omega arith),
      memcpy_in m a 5 bs (omega arith),
      memcpy_in m a 6 bs (omega arith),
      memcpy_in m a 7 bs (omega arith),
    )

-- A write elsewhere.
pub write_word_out : (m : Memory) (a v q : ℕ) → (q < a) ⊎ (a + 8 ≤ q) → write_word a v m q ≡ m q
unfolding write_word
write_word_out m a v q h = memcpy_out m a q (word_bytes v) h

pub read_word_congr :
    (m m' : Memory) (a : ℕ)
    → ((q : ℕ) → a ≤ q → q < a + 8 → m' q ≡ m q)
    → read_word m' a ≡ read_word m a
unfolding read_word
read_word_congr m m' a h = omega (
  arith,
  h a (omega arith) (omega arith),
  h (a + 1) (omega arith) (omega arith),
  h (a + 2) (omega arith) (omega arith),
  h (a + 3) (omega arith) (omega arith),
  h (a + 4) (omega arith) (omega arith),
  h (a + 5) (omega arith) (omega arith),
  h (a + 6) (omega arith) (omega arith),
  h (a + 7) (omega arith) (omega arith),
)

pub read_word-write_word_ne :
    (m : Memory) (a v b : ℕ)
    → (b + 8 ≤ a) ⊎ (a + 8 ≤ b)
    → read_word (write_word a v m) b ≡ read_word m b
read_word-write_word_ne m a v b (inl h) =
    read_word_congr m (write_word a v m) b (λ q k l. write_word_out m a v q (inl (omega arith)))
read_word-write_word_ne m a v b (inr h) =
    read_word_congr m (write_word a v m) b (λ q k l. write_word_out m a v q (inr (omega arith)))
