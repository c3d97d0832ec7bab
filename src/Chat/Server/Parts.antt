-- ===== src/Chat/Server/Parts.antt =====
-- Messages up to 2048 bytes are cut into parts without loss; longer ones are not: bytes are repeated.
use mathlib.Core.List.{append-nil, flatten}
use technosphere.Chat.Server.{max_msg_size, parts_from, parts}
use technosphere.Common.Bytes.{Bytes}
use technosphere.Common.{
  ℕ, zero, suc, ◌+◌, ◌*◌, ◌-◌, ◌<◌, ◌≤◌, ◌≡◌, refl, sym, ap, ◌∙◌, true, false, some, List, [], ◌∷◌,
  ◌++◌, arith, ltb, min, take, drop, length, length-take, length-drop, length-append,
  take-append-drop, Bool-cases, inl, inr,
}

-- The part that starts at j.
abbrev part : ℕ → Bytes → Bytes
part j msg = take (min (j + max_msg_size) (length msg)) (drop j msg)

parts_end : (fuel j : ℕ) (msg : Bytes) → 0 < fuel → length msg ≤ j → parts_from fuel j msg ≡ some []
unfolding parts_from
parts_end zero j msg f h = absurd (omega arith)
parts_end (suc fuel) j msg f h = let e : ltb j (length msg) ≡ false = ground arith in rw e

parts_more :
    (fuel fuel' j : ℕ) (msg : Bytes) (ps : List Bytes)
    → fuel ≡ suc fuel'
    → j < length msg
    → parts_from fuel' (j + max_msg_size) msg ≡ some ps
    → parts_from fuel j msg ≡ some (part j msg ∷ ps)
unfolding parts_from
parts_more fuel fuel' j msg ps f h e =
    let g : ltb j (length msg) ≡ true = ground arith in rw f (rw (g, e))

-- The loop ends, and its parts hold at least the bytes from j on.
parts_from-length :
    (fuel j : ℕ) (msg : Bytes)
    → length msg < j + fuel
    → 0 < fuel
    → (ps : List Bytes) × (parts_from fuel j msg ≡ some ps) × (length msg ≤ j + length (flatten ps))
unfolding flatten
parts_from-length zero j msg h f = absurd (omega arith)
parts_from-length (suc fuel) j msg h f = elim (Bool-cases (ltb j (length msg))) [
  | inr e ↦ ([], parts_end (suc fuel) j msg f (ground arith), ground arith)
  | inl e ↦
      let inside : j < length msg = ground arith in
      let (ps, run, long) =
        parts_from-length fuel (j + max_msg_size) msg (omega arith) (omega arith) in
      (
        part j msg ∷ ps,
        parts_more (suc fuel) fuel j msg ps refl inside run,
        omega (
          arith,
          length-append (part j msg) (flatten ps),
          length-take (min (j + max_msg_size) (length msg)) (drop j msg),
          length-drop j msg,
        ),
      )
]

take_all : (n : ℕ) (s : Bytes) → length s ≤ n → take n s ≡ s
take_all zero [] h = refl
take_all (suc n) [] h = refl
take_all zero (c ∷ s) h = absurd (omega arith)
take_all (suc n) (c ∷ s) h = rw (take_all n s (omega arith))

is_nil : (s : Bytes) → length s ≤ 0 → s ≡ []
is_nil [] h = refl
is_nil (c ∷ s) h = absurd (omega arith)

two_parts :
    (msg : Bytes)
    → length msg ≤ 2 * max_msg_size
    → max_msg_size < length msg
    → flatten (part 0 msg ∷ part max_msg_size msg ∷ []) ≡ msg
unfolding flatten
two_parts msg h g =
    let front : min (0 + max_msg_size) (length msg) ≡ max_msg_size = omega arith in
    let back : part max_msg_size msg ≡ drop max_msg_size msg =
      take_all (min (max_msg_size + max_msg_size) (length msg)) (drop max_msg_size msg)
        (omega (arith, length-drop max_msg_size msg)) in
    ap (λ (n : ℕ). take n msg ++ (part max_msg_size msg ++ [])) front
    ∙ ap (λ (s : Bytes). take max_msg_size msg ++ s) (append-nil (part max_msg_size msg) ∙ back)
    ∙ take-append-drop max_msg_size msg

-- A message of at most 2048 bytes is cut into parts that are the message, in order.
pub parts-flatten :
    (msg : Bytes)
    → length msg ≤ 2 * max_msg_size
    → (ps : List Bytes) × (parts msg ≡ some ps) × (flatten ps ≡ msg)
unfolding parts flatten
parts-flatten msg h = elim (Bool-cases (ltb 0 (length msg))) [
  | inr e ↦ (
    [],
    parts_end (length msg + 1) 0 msg (omega arith) (ground arith),
    sym (is_nil msg (ground arith)),
  )
  | inl e₀ ↦ elim (Bool-cases (ltb max_msg_size (length msg))) [
    | inr e ↦ (
      part 0 msg ∷ [],
      parts_more (length msg + 1) (length msg) 0 msg [] (omega arith) (ground arith)
          (parts_end (length msg) max_msg_size msg (ground arith) (ground arith)),
      append-nil (part 0 msg) ∙ take_all (min (0 + max_msg_size) (length msg)) msg (ground arith),
    )
    | inl e ↦ (
      part 0 msg ∷ part max_msg_size msg ∷ [],
      parts_more (length msg + 1) (length msg) 0 msg (part max_msg_size msg ∷ []) (omega arith)
          (ground arith)
          (parts_more (length msg) (length msg - 1) max_msg_size msg [] (ground arith)
            (ground arith) (parts_end (length msg - 1) (2 * max_msg_size) msg (ground arith) h)),
      two_parts msg h (ground arith),
    )
  ]
]

-- The parts of a message of more than 2048 bytes hold more bytes than it has.
pub parts_repeat :
    (msg : Bytes)
    → 2 * max_msg_size < length msg
    → (ps : List Bytes) × (parts msg ≡ some ps) × (length msg < length (flatten ps))
unfolding parts flatten
parts_repeat msg h =
    let n = length msg in
    let (ps, run, long) =
      parts_from-length (n - 1) (2 * max_msg_size) msg (omega arith) (omega arith) in
    (
      part 0 msg ∷ part max_msg_size msg ∷ ps,
      parts_more (n + 1) n 0 msg (part max_msg_size msg ∷ ps) (omega arith) (omega arith)
          (parts_more n (n - 1) max_msg_size msg ps (omega arith) (omega arith) run),
      omega (
        arith,
        length-append (part 0 msg) (part max_msg_size msg ++ flatten ps),
        length-append (part max_msg_size msg) (flatten ps),
        length-take (min (0 + max_msg_size) n) msg,
        length-take (min (max_msg_size + max_msg_size) n) (drop max_msg_size msg),
        length-drop max_msg_size msg,
      ),
    )
