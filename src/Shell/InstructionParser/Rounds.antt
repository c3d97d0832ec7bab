-- ===== src/Shell/InstructionParser/Rounds.antt =====
-- A round of the loop of `Instruction::Instruction`, at a call and the action behind it.
use mathlib.Core.List.{append_assoc}
use technosphere.Common.Bytes.{Bytes, drop-append, take-append}
use technosphere.Common.{
  ℕ, suc, ◌+◌, ◌-◌, ◌<◌, ◌≡◌, refl, sym, ap, ◌∙◌, true, false, ◌||◌, some, List, [], ◌∷◌, ◌++◌,
  arith, ltb, leb, ◌==◌, length, length-append, get_or,
}
use technosphere.Shell.Call.{Call}
use technosphere.Shell.CallParser.{parse_call}
use technosphere.Shell.Execute.{Action, Step}
use technosphere.Shell.InstructionParser.{
  Instruction, Scan, Seen, is_special, see, piece, next_last_action, action_size, advance,
  take_call, scan_round, scan,
}
use technosphere.Shell.Text.{
  Outcome, proceed, find_first_of, find_first_of-found, get_or-between, Avoids,
}

-- The actions `&&`, `||` and `;`.
abbrev pub IsJoint : Action → Type 0
IsJoint Action.and = Unit
IsJoint Action.or = Unit
IsJoint Action.last = Unit
IsJoint _ = ⊥

abbrev pub sign : Action → Bytes
sign Action.and = 38 ∷ 38 ∷ []
sign Action.or = 124 ∷ 124 ∷ []
sign Action.last = 59 ∷ []
sign _ = []

abbrev pub clean : List Step → Instruction
clean calls = record { calls = calls; background = false; parse_error = false }

-- The loop where `last` is k, and no flag is set.
abbrev pub scan_at : Bytes → ℕ → Action → List Step → Scan
scan_at s k b calls = record {
  last = some k;
  i = find_first_of is_special s k;
  last_action = b;
  instruction = clean calls;
}

-- The text with an action behind `pre` and w.
abbrev joined : Bytes → Bytes → Action → Bytes → Bytes
joined pre w a t = pre ++ (w ++ (sign a ++ (32 ∷ t)))

length-joined :
    (pre w : Bytes) (a : Action) (t : Bytes)
    → length (joined pre w a t) ≡ length pre + length w + length (sign a) + suc (length t)
length-joined pre w a t = omega (
  arith,
  length-append pre (w ++ (sign a ++ (32 ∷ t))),
  length-append w (sign a ++ (32 ∷ t)),
  length-append (sign a) (32 ∷ t),
)

get_or-next :
    (pre w t : Bytes) (c d : ℕ)
    → get_or (pre ++ (w ++ (c ∷ d ∷ t))) (suc (length pre + length w)) 0 ≡ d
get_or-next pre w t c d =
    let n : length pre + length (w ++ (c ∷ [])) ≡ suc (length pre + length w) =
      omega (arith, length-append w (c ∷ [])) in
    ap (λ (u : Bytes). get_or (pre ++ u) (suc (length pre + length w)) 0)
      (sym (append_assoc w (c ∷ []) (d ∷ t)))
    ∙ ap (λ (k : ℕ). get_or (pre ++ ((w ++ (c ∷ [])) ++ (d ∷ t))) k 0) (sym n)
    ∙ get_or-between pre (w ++ (c ∷ [])) t d

see-sign :
    (pre w : Bytes) (a : Action) (t : Bytes)
    → IsJoint a
    → see (joined pre w a t) (length pre + length w) ≡ Seen.acts a false false
unfolding see
see-sign pre w Action.and t h =
    let room : ltb (length pre + length w + 2) (length (joined pre w Action.and t)) ≡ true =
      ground (arith, length-joined pre w Action.and t) in
    rw (get_or-between pre w (38 ∷ 32 ∷ t) 38, get_or-next pre w (32 ∷ t) 38 38, room) refl
see-sign pre w Action.or t h =
    let room : ltb (length pre + length w + 1) (length (joined pre w Action.or t)) ≡ true =
      ground (arith, length-joined pre w Action.or t) in
    rw (get_or-between pre w (124 ∷ 32 ∷ t) 124, get_or-next pre w (32 ∷ t) 124 124, room) refl
see-sign pre w Action.last t h = rw (get_or-between pre w (32 ∷ t) 59) refl
see-sign pre w Action.first t h = elim h [ ]
see-sign pre w Action.simultaneously t h = elim h [ ]

find-sign :
    (pre w : Bytes) (a : Action) (t : Bytes)
    → IsJoint a
    → Avoids is_special w
    → find_first_of is_special (joined pre w a t) (length pre) ≡ some (length pre + length w)
find-sign pre w Action.and t h k = find_first_of-found is_special pre w 38 (38 ∷ 32 ∷ t) k refl
find-sign pre w Action.or t h k = find_first_of-found is_special pre w 124 (124 ∷ 32 ∷ t) k refl
find-sign pre w Action.last t h k = find_first_of-found is_special pre w 59 (32 ∷ t) k refl
find-sign pre w Action.first t h k = elim h [ ]
find-sign pre w Action.simultaneously t h k = elim h [ ]

length-sign : (a : Action) → IsJoint a → action_size a ≡ length (sign a)
unfolding action_size
length-sign Action.and h = refl
length-sign Action.or h = refl
length-sign Action.last h = refl
length-sign Action.first h = elim h [ ]
length-sign Action.simultaneously h = elim h [ ]

piece-joined : (pre w t : Bytes) → piece (pre ++ (w ++ t)) (length pre) (length pre + length w) ≡ w
unfolding piece
piece-joined pre w t =
    let no_wrap : ltb (length pre + length w) (length pre) ≡ false = ground arith in
    let n : length pre + length w - length pre ≡ length w = omega arith in
    rw (no_wrap, n, drop-append pre (w ++ t)) (take-append w t)

take_call-joined :
    (pre w : Bytes) (a : Action) (t : Bytes) (b : Action) (calls : List Step) (c : Call)
    → IsJoint a
    → 0 < length w
    → parse_call w 0 1 ≡ Outcome.done c
    → take_call (joined pre w a t) (length pre) (length pre + length w) b a (clean calls)
      ≡ Outcome.done (
          scan_at
            (joined pre w a t)
            (length pre + length w + length (sign a))
            (next_last_action a)
            (calls ++ (record { call = c; last_action = b; action = a } ∷ [])))
unfolding take_call advance proceed
take_call-joined pre w a t b calls c h l e =
    let s = joined pre w a t in
    let p = length pre + length w in
    let apart : length pre == p ≡ false = ground arith in
    let size : p + action_size a ≡ p + length (sign a) = omega (arith, length-sign a h) in
    let more : leb (length s) (p + length (sign a)) ≡ false =
      ground (arith, length-joined pre w a t) in
    let parsed : parse_call (piece s (length pre) p) 0 1 ≡ Outcome.done c =
      ap (λ (u : Bytes). parse_call u 0 1) (piece-joined pre w (sign a ++ (32 ∷ t))) ∙ e in
    rw (apart, parsed, size, more) refl

scan_round-acts :
    (s : Bytes) (last i : ℕ) (a : Action) (x : Scan)
    → see s i ≡ Seen.acts a false false
    → scan_round s last i x
      ≡ take_call s last i (x.last_action) a (record (x.instruction) {
        background = x.instruction.background || false;
        parse_error = x.instruction.parse_error || false;
      })
unfolding scan_round
scan_round-acts s last i a x e = ground (arith, e)

scan-some :
    (fuel : ℕ) (s : Bytes) (k i : ℕ) (b : Action) (calls : List Step) (x : Scan)
    → find_first_of is_special s k ≡ some i
    → k < length s
    → scan_round s k i (scan_at s k b calls) ≡ Outcome.done x
    → scan (suc fuel) s (scan_at s k b calls) ≡ scan fuel s x
unfolding scan proceed
scan-some fuel s k i b calls x f l e =
    let inside : ltb k (length s) ≡ true = ground arith in rw (f, inside) (ground (arith, e))

-- A round.
pub scan-joined :
    (fuel : ℕ) (pre w : Bytes) (a : Action) (t : Bytes) (b : Action) (calls : List Step) (c : Call)
    → IsJoint a
    → Avoids is_special w
    → 0 < length w
    → parse_call w 0 1 ≡ Outcome.done c
    → scan (suc fuel) (joined pre w a t) (scan_at (joined pre w a t) (length pre) b calls)
      ≡ scan fuel (joined pre w a t) (
          scan_at
            (joined pre w a t)
            (length pre + length w + length (sign a))
            (next_last_action a)
            (calls ++ (record { call = c; last_action = b; action = a } ∷ [])))
scan-joined fuel pre w a t b calls c h k l e =
    let s = joined pre w a t in
    scan-some fuel s (length pre) (length pre + length w) b calls _ (find-sign pre w a t h k)
      (omega (arith, length-joined pre w a t))
      (scan_round-acts s (length pre) (length pre + length w) a (scan_at s (length pre) b calls)
          (see-sign pre w a t h)
        ∙ take_call-joined pre w a t b calls c h l e)
