-- ===== src/Alloc/Move.antt =====
-- The move of a block that `realloc` makes.
use mathlib.Core.Path.{subst}
use technosphere.Alloc.Allocator.{Allocator, info_size, begin_ref, data_end, free_at}
use technosphere.Alloc.Chain.{size_of}
use technosphere.Alloc.Free.{IsBlock-le}
use technosphere.Alloc.Keeps.{Keeps, Keeps-size, Keeps-trans, data_Keeps, free_Keeps, swap-Keeps}
use technosphere.Alloc.Moves.{move_block, swap}
use technosphere.Alloc.Release.{freed-IsTable, begin_ref_same}
use technosphere.Alloc.Same.{data_IsTable, data_Holds, data-Same}
use technosphere.Alloc.Swap.{swap_out, swap-reference, swap-Holds, swap-size, swap-IsTable}
use technosphere.Alloc.Table.{IsPlace, Holds, IsTable}
use technosphere.Alloc.Words.{read_word, read_word_congr}
use technosphere.Cache.Memory.{Memory, memcpy, read_bytes, memcpy_in, memcpy_out}
use technosphere.Common.{
  ℕ, zero, suc, ◌+◌, ◌≤◌, ◌<◌, ◌≡◌, ◌≢◌, ◌⊎◌, inl, inr, refl, ap, sym, ◌∙◌, List, arith, min,
  length, get_or,
}

length-read_bytes : (m : Memory) (b n : ℕ) → length (read_bytes m b n) ≡ n
unfolding read_bytes
length-read_bytes m b zero = refl
length-read_bytes m b (suc n) = ap suc (length-read_bytes m (b + 1) n)

get_or-read_bytes : (m : Memory) (b n i : ℕ) → i < n → get_or (read_bytes m b n) i 0 ≡ m (b + i)
unfolding read_bytes
get_or-read_bytes m b zero i h = absurd (omega arith)
get_or-read_bytes m b (suc n) zero h = let z : b + 0 ≡ b = omega arith in rw z refl
get_or-read_bytes m b (suc n) (suc i) h =
    let e : b + suc i ≡ b + 1 + i = omega arith in
    rw e (get_or-read_bytes m (b + 1) n i (omega arith))

-- p holds a block of n bytes that begins with the bytes of the block it held before.
pub record Placed (a : Allocator) (p n : ℕ) (m m' : Memory) (bs' : List ℕ) : Type 0 where
  pub table : IsTable a m' bs'
  pub holds : Holds a m' bs' p
  pub sized : size_of m' (read_word m' p) ≡ n
  pub copied :
      (i : ℕ)
      → i < min (size_of m (read_word m p)) n
      → m' (read_word m' p + info_size + i) ≡ m (read_word m p + info_size + i)

-- The move itself, from a table in which p and slot hold blocks, this one of n bytes.
module _ (a : Allocator) (m : Memory) (bs : List ℕ) (t : IsTable a m bs) (p slot n : ℕ)
    (at_p : IsPlace a p) (at_slot : IsPlace a slot) (p_in : begin_ref a m ≤ p)
    (slot_in : begin_ref a m ≤ slot) (ne : p ≢ slot) (hp : Holds a m bs p) (hs : Holds a m bs slot)
    (sized : size_of m (read_word m slot) ≡ n) where
  abbrev old : ℕ
  old = read_word m p

  abbrev new : ℕ
  new = read_word m slot

  abbrev len : ℕ
  len = min (size_of m old) n

  abbrev copy : Memory
  copy = memcpy (new + info_size) (read_bytes m (old + info_size) len) m

  abbrev freed : Memory
  freed = free_at a p (read_word copy p) copy

  abbrev moved : Memory
  moved = swap p (read_word freed slot) freed

  copy_out : (q : ℕ) → (q < new + info_size) ⊎ (new + info_size + size_of m new ≤ q) → copy q ≡ m q
  copy_out q h =
      let e = length-read_bytes m (old + info_size) len in
      memcpy_out m (new + info_size) q (read_bytes m (old + info_size) len)
        (elim h [ inl g ↦ inl g | inr g ↦ inr (omega (arith, e, g, sized)) ])

  copy_in : (i : ℕ) → i < len → copy (new + info_size + i) ≡ m (old + info_size + i)
  copy_in i h =
      let e = length-read_bytes m (old + info_size) len in
      memcpy_in m (new + info_size) i (read_bytes m (old + info_size) len) (omega (arith, e))
      ∙ get_or-read_bytes m (old + info_size) len i h

  copy_table : IsTable a copy bs
  copy_table = data_IsTable a m copy bs t new hs.0 copy_out

  copy-Keeps_old : Keeps a m copy bs p
  copy-Keeps_old = data_Keeps a m bs t copy slot hs copy_out p p_in ne hp

  copy_holds_new : Holds a copy bs slot
  copy_holds_new = data_Holds a m copy bs t new hs.0 copy_out slot slot_in hs

  -- the new block and its reference are still there
  copy-new : read_word copy slot ≡ new
  copy-new =
      let (_, le) =
        IsBlock-le (begin_ref a m) (data_end a m) m new (a.base + info_size) bs t.chain hs.0 in
      read_word_congr m copy slot
        (λ q g h. copy_out q (inr (omega (arith, le, t.heap.apart, slot_in, g))))

  copy_size : size_of copy new ≡ size_of m new
  copy_size = (data-Same a m copy bs t new hs.0 copy_out).size new hs.0

  copy_ref : begin_ref a copy ≡ begin_ref a m
  copy_ref = (data-Same a m copy bs t new hs.0 copy_out).ref

  freed_table : IsTable a freed bs
  freed_table =
      (freed-IsTable a copy bs copy_table p at_p (omega (arith, p_in, copy_ref))
        copy-Keeps_old.held).1

  freed-Keeps_new : Keeps a copy freed bs slot
  freed-Keeps_new =
      free_Keeps a copy bs copy_table p at_p (omega (arith, p_in, copy_ref)) copy-Keeps_old.held
        slot at_slot (omega (arith, slot_in, copy_ref)) (λ e. ne (sym e)) copy_holds_new

  freed-new : read_word freed slot ≡ new
  freed-new = freed-Keeps_new.word ∙ copy-new

  freed_ref : begin_ref a freed ≡ begin_ref a m
  freed_ref =
      begin_ref_same a copy bs copy_table p at_p (omega (arith, p_in, copy_ref)) copy-Keeps_old.held
      ∙ copy_ref

  p_freed : begin_ref a freed ≤ p
  p_freed = omega (arith, p_in, freed_ref)

  slot_freed : begin_ref a freed ≤ slot
  slot_freed = omega (arith, slot_in, freed_ref)

  move_block-moved : move_block a p slot n m ≡ moved
  unfolding move_block
  move_block-moved =
      ap (λ (x : ℕ). swap p new (free_at a p x copy)) (sym copy-Keeps_old.word)
      ∙ ap (λ (x : ℕ). swap p x freed) (sym freed-new)

  moved_reference : read_word moved p ≡ new
  moved_reference =
      swap-reference a freed bs freed_table p slot at_p at_slot p_freed slot_freed ne
        freed-Keeps_new.held
      ∙ freed-new

  -- the bytes of the new block behind its header
  moved_bytes : (i : ℕ) → i < n → moved (new + info_size + i) ≡ copy (new + info_size + i)
  moved_bytes i h =
      let (_, le) =
        IsBlock-le (begin_ref a m) (data_end a m) m new (a.base + info_size) bs t.chain hs.0 in
      let size : size_of copy (read_word copy slot) ≡ n =
        ap (size_of copy) copy-new ∙ copy_size ∙ sized in
      swap_out a freed bs freed_table p slot at_p at_slot p_freed slot_freed ne freed-Keeps_new.held
        (new + info_size + i) (inl (omega (arith, le, t.heap.apart, p_in, sized, h)))
        (inl (omega (arith, le, t.heap.apart, slot_in, sized, h))) (inr (omega (arith, freed-new)))
      ∙ freed-Keeps_new.bytes (new + info_size + i) (omega (arith, copy-new))
          (omega (arith, copy-new, size, h))

  moved_size : size_of moved new ≡ n
  moved_size =
      ap (size_of moved) (sym freed-new)
      ∙ swap-size a freed bs freed_table p slot at_p at_slot p_freed slot_freed ne
          freed-Keeps_new.held
      ∙ ap (size_of freed) freed-Keeps_new.word
      ∙ Keeps-size a copy freed bs slot freed-Keeps_new
      ∙ ap (size_of copy) copy-new
      ∙ copy_size
      ∙ sized

  moved-Keeps :
      (q : ℕ)
      → IsPlace a q
      → begin_ref a m ≤ q
      → q ≢ p
      → q ≢ slot
      → Holds a m bs q
      → Keeps a m moved bs q
  moved-Keeps q at h n₁ n₂ hq =
      let k₁ = data_Keeps a m bs t copy slot hs copy_out q h n₂ hq in
      let k₂ =
        free_Keeps a copy bs copy_table p at_p (omega (arith, p_in, copy_ref)) copy-Keeps_old.held q
          at (omega (arith, h, copy_ref)) n₁ k₁.held in
      let k₃ =
        swap-Keeps a freed bs freed_table p slot at_p at_slot p_freed slot_freed ne
          freed-Keeps_new.held q at (omega (arith, h, freed_ref)) n₁ n₂ k₂.held in
      Keeps-trans a m freed moved bs bs q (Keeps-trans a m copy freed bs bs q k₁ k₂) k₃

  pub move_block-Placed : Placed a p n m (move_block a p slot n m) bs
  move_block-Placed =
      subst (λ (x : Memory). Placed a p n m x bs) (sym move_block-moved)
        (record {
          table =
              swap-IsTable a freed bs freed_table p slot at_p at_slot p_freed slot_freed ne
                freed-Keeps_new.held;
          holds =
              swap-Holds a freed bs freed_table p slot at_p at_slot p_freed slot_freed ne
                freed-Keeps_new.held;
          sized = ap (size_of moved) moved_reference ∙ moved_size;
          copied = λ i h.
              ap (λ (x : ℕ). moved (x + info_size + i)) moved_reference
              ∙ moved_bytes i (omega (arith, h))
              ∙ copy_in i h;
        })

  pub move_block-Keeps :
      (q : ℕ)
      → IsPlace a q
      → begin_ref a m ≤ q
      → q ≢ p
      → q ≢ slot
      → Holds a m bs q
      → Keeps a m (move_block a p slot n m) bs q
  move_block-Keeps q at h n₁ n₂ hq =
      subst (λ (x : Memory). Keeps a m x bs q) (sym move_block-moved) (moved-Keeps q at h n₁ n₂ hq)
