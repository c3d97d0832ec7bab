-- ===== src/Cache/HashTable/Layout.antt =====
-- Where `set_entry` writes, and what it leaves alone.
use technosphere.Cache.HashTable.{HashTable, Source, record_size, set_field, set_entry}
use technosphere.Cache.Memory.{
  Memory, memcpy, memcpy_in, memcpy_out, memset_in, memset_out, read_unsigned, read_unsigned-memcpy,
  unsigned_bytes, Stores, Agrees,
}
use technosphere.Common.Bytes.{Bytes, c_str}
use technosphere.Common.{
  ℕ, zero, suc, ◌+◌, ◌-◌, ◌^◌, ◌≤◌, ◌<◌, ◌≡◌, ◌⊎◌, inl, inr, refl, sym, ◌∙◌, Option, none, some, [],
  ◌∷◌, arith, ltb, length, get_or, Bool-cases,
}

pub get_or-ge_length : (bs : Bytes) (i : ℕ) → length bs ≤ i → get_or bs i 0 ≡ 0
get_or-ge_length [] i h = refl
get_or-ge_length (b ∷ bs) zero h = absurd (omega arith)
get_or-ge_length (b ∷ bs) (suc i) h = get_or-ge_length bs i (omega arith)

pub length-c_str : (s : Bytes) → length (c_str s) ≤ length s
unfolding c_str
length-c_str [] = omega arith
length-c_str (c ∷ s) = ground (arith, length-c_str s)

-- A string fits its field, or the pointer is null.
abbrev pub FieldFits : Option Bytes → ℕ → Type 0
FieldFits none size = Unit
FieldFits (some s) size = length (c_str s) ≤ size

module _ (to size : ℕ) (m : Memory) where
  pub set_field_out :
      (f : Option Bytes) (q : ℕ)
      → FieldFits f size
      → (q < to) ⊎ (to + size ≤ q)
      → set_field to size f m q ≡ m q
  unfolding set_field
  set_field_out none q fits h = refl
  set_field_out (some s) q fits h =
      let len = length (c_str s) in
      memset_out (memcpy to (c_str s) m) (to + len) 0 (size - len) q (omega arith)
      ∙ memcpy_out m to q (c_str s) (omega arith)

  pub set_field_in :
      (s : Bytes)
      → length (c_str s) ≤ size
      → Stores (set_field to size (some s) m) to size (c_str s)
  unfolding set_field
  set_field_in s fits i h = elim (Bool-cases (ltb i (length (c_str s)))) [
    | inl e ↦
        let inside : i < length (c_str s) = ground arith in
        memset_out (memcpy to (c_str s) m) (to + length (c_str s)) 0 (size - length (c_str s))
          (to + i) (omega arith)
        ∙ memcpy_in m to i (c_str s) inside
    | inr e ↦
        let outside : length (c_str s) ≤ i = ground arith in
        memset_in (memcpy to (c_str s) m) (to + length (c_str s)) 0 (size - length (c_str s))
          (to + i) (omega arith) (omega arith)
        ∙ sym (get_or-ge_length (c_str s) i outside)
  ]

-- What a record holds after `set_entry`: the status, the TTL, and each field that was given.
pub record Written (t : HashTable) (src : Source) (a : ℕ) (m m' : Memory) : Type 0 where
  pub outside : (q : ℕ) → (q < a) ⊎ (a + record_size t ≤ q) → m' q ≡ m q
  pub status : m' (a + t.key_size + t.value_size + 4) ≡ src.status
  pub ttl : src.ttl < 2 ^ 32 → read_unsigned m' (a + t.key_size + t.value_size) ≡ src.ttl
  pub key_same : src.key ≡ none → Agrees m m' a t.key_size
  pub value_same : src.value ≡ none → Agrees m m' (a + t.key_size) t.value_size
  pub key_set : (s : Bytes) → src.key ≡ some s → Stores m' a t.key_size (c_str s)
  pub value_set :
      (s : Bytes) → src.value ≡ some s → Stores m' (a + t.key_size) t.value_size (c_str s)

pub read_unsigned_congr :
    (m m' : Memory) (a : ℕ) → Agrees m m' a 4 → read_unsigned m' a ≡ read_unsigned m a
unfolding read_unsigned
read_unsigned_congr m m' a h = omega (
  arith,
  h a (omega arith) (omega arith),
  h (a + 1) (omega arith) (omega arith),
  h (a + 2) (omega arith) (omega arith),
  h (a + 3) (omega arith) (omega arith),
)

module _ (t : HashTable) (src : Source) (a : ℕ) (m : Memory)
    (key_fits : FieldFits src.key t.key_size) (value_fits : FieldFits src.value t.value_size) where
  m₁ : Memory
  m₁ = set_field a t.key_size src.key m

  m₂ : Memory
  unfolding m₁
  m₂ = set_field (a + t.key_size) t.value_size src.value m₁

  m₃ : Memory
  unfolding m₂
  m₃ = memcpy (a + t.key_size + t.value_size) (unsigned_bytes src.ttl) m₂

  -- behind the two fields stand the TTL and the status
  before_tail : (q : ℕ) → q < a + t.key_size + t.value_size → set_entry t src a m q ≡ m₂ q
  unfolding set_entry m₃
  before_tail q h =
      memcpy_out m₃ (a + t.key_size + t.value_size + 4) q (src.status ∷ []) (omega arith)
      ∙ memcpy_out m₂ (a + t.key_size + t.value_size) q (unsigned_bytes src.ttl) (omega arith)

  before_value : (q : ℕ) → q < a + t.key_size → set_entry t src a m q ≡ m₁ q
  unfolding m₂
  before_value q h =
      before_tail q (omega arith)
      ∙ set_field_out (a + t.key_size) t.value_size m₁ src.value q value_fits (inl h)

  key_part : (q : ℕ) → (q < a) ⊎ (a + t.key_size ≤ q) → m₁ q ≡ m q
  unfolding m₁
  key_part q h = set_field_out a t.key_size m src.key q key_fits h

  set_entry-outside : (q : ℕ) → (q < a) ⊎ (a + record_size t ≤ q) → set_entry t src a m q ≡ m q
  unfolding set_entry m₃
  set_entry-outside q h =
      memcpy_out m₃ (a + t.key_size + t.value_size + 4) q (src.status ∷ []) (omega arith)
      ∙ memcpy_out m₂ (a + t.key_size + t.value_size) q (unsigned_bytes src.ttl) (omega arith)
      ∙ set_field_out (a + t.key_size) t.value_size m₁ src.value q value_fits (omega arith)
      ∙ key_part q (omega arith)

  set_entry-status : set_entry t src a m (a + t.key_size + t.value_size + 4) ≡ src.status
  unfolding set_entry m₃
  set_entry-status =
      let b = a + t.key_size + t.value_size + 4 in
      let z : b + 0 ≡ b = omega arith in rw z at (memcpy_in m₃ b 0 (src.status ∷ []) (omega arith))

  set_entry-ttl :
      src.ttl < 2 ^ 32
      → read_unsigned (set_entry t src a m) (a + t.key_size + t.value_size) ≡ src.ttl
  unfolding set_entry m₃
  set_entry-ttl h =
      let b = a + t.key_size + t.value_size in
      read_unsigned_congr m₃ (set_entry t src a m) b
        (λ q p r. memcpy_out m₃ (b + 4) q (src.status ∷ []) (omega arith))
      ∙ read_unsigned-memcpy m₂ b src.ttl h

  set_entry-key :
      (s : Bytes) → src.key ≡ some s → Stores (set_entry t src a m) a t.key_size (c_str s)
  unfolding m₁
  set_entry-key s e i h =
      before_value (a + i) (omega arith)
      ∙ rw e (set_field_in a t.key_size m s (rw e at key_fits) i h)

  set_entry-value :
      (s : Bytes)
      → src.value ≡ some s
      → Stores (set_entry t src a m) (a + t.key_size) t.value_size (c_str s)
  unfolding m₂
  set_entry-value s e i h =
      before_tail (a + t.key_size + i) (omega arith)
      ∙ rw e (set_field_in (a + t.key_size) t.value_size m₁ s (rw e at value_fits) i h)

  set_entry-key_same : src.key ≡ none → Agrees m (set_entry t src a m) a t.key_size
  unfolding m₁ set_field
  set_entry-key_same e q p r = before_value q r ∙ rw (e, set_field)

  set_entry-value_same :
      src.value ≡ none → Agrees m (set_entry t src a m) (a + t.key_size) t.value_size
  unfolding m₂ set_field
  set_entry-value_same e q p r = before_tail q r ∙ rw (e, set_field) (key_part q (inr p))

  pub set_entry-Written : Written t src a m (set_entry t src a m)
  set_entry-Written = record {
    outside = set_entry-outside;
    status = set_entry-status;
    ttl = set_entry-ttl;
    key_same = set_entry-key_same;
    value_same = set_entry-value_same;
    key_set = set_entry-key;
    value_set = set_entry-value;
  }
