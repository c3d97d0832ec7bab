-- ===== src/Shell/InstructionParser.antt =====
-- sphere_prac/p4/Instruction.cpp: the constructor of `Instruction`, and `output_instruction`.
pub mod Rounds
pub mod Pieces
pub mod Lines
pub mod Endless
use technosphere.Common.Bytes.{Bytes, codes}
use technosphere.Common.{
  ℕ, zero, suc, ◌+◌, ◌-◌, Bool, true, false, ◌||◌, ◌&&◌, not, Option, none, some, List, [], ◌∷◌,
  ◌++◌, ltb, leb, ◌==◌, if◌then◌else◌, take, drop, length, get_or,
}
use technosphere.Shell.Call.{Call}
use technosphere.Shell.CallParser.{parse_call, output_call}
use technosphere.Shell.Execute.{Action, Step}
use technosphere.Shell.Text.{Outcome, proceed, find_first_of, trimmed, is_quote}

pub record Instruction : Type 0 where
  pub calls : List Step
  pub background : Bool
  pub parse_error : Bool

-- `"&|;'\""`
abbrev pub is_special : ℕ → Bool
is_special c = c == 38 || c == 124 || c == 59 || is_quote c

-- What the `switch` finds: an action with the two flags it sets, or `again`.
pub data Seen : Type 0 where
  acts : Action → Bool → Bool → Seen
  again : Seen

-- The `switch` on `s[i]`.
unfoldable pub see : Bytes → ℕ → Seen
see s i =
    let c = get_or s i 0 in
    let next = get_or s (suc i) 0 in
    if c == 38
    then (if ltb (i + 2) (length s)
        then (if next == 38
            then Seen.acts Action.and false false
            else Seen.acts Action.last false true)
        else Seen.acts Action.last true false)
    else if c == 124
    then (if ltb (i + 1) (length s)
        then (if next == 124
            then Seen.acts Action.or false false
            else Seen.acts Action.simultaneously false false)
        else Seen.acts Action.last false true)
    else if c == 59
    then Seen.acts Action.last false false
    else if is_quote c
    then Seen.again
    else Seen.acts Action.last false true

-- `s.find_first_of("&|;\'\"", i + 1)`; `npos + 1` is 0.
unfoldable pub find_behind : Bytes → Option ℕ → Option ℕ
find_behind s none = find_first_of is_special s 0
find_behind s (some i) = find_first_of is_special s (suc i)

-- The cases of the quotes, and the search that `again` makes.
unfoldable pub skip_quoted : Bytes → ℕ → Option ℕ
unfolding find_behind
skip_quoted s i = find_behind s (find_first_of (λ (d : ℕ). d == get_or s i 0) s (suc i))

-- `s.substr(last, i - last)`; the length wraps around if i is before `last`.
unfoldable pub piece : Bytes → ℕ → ℕ → Bytes
piece s last i = if ltb i last then drop last s else take (i - last) (drop last s)

unfoldable pub next_last_action : Action → Action
next_last_action Action.last = Action.first
next_last_action action = action

unfoldable pub action_size : Action → ℕ
action_size Action.and = 2
action_size Action.or = 2
action_size _ = 1

-- The variables of the loop. `npos` is none.
pub record Scan : Type 0 where
  pub last : Option ℕ
  pub i : Option ℕ
  pub last_action : Action
  pub instruction : Instruction

-- `last` and i behind an action
unfoldable pub advance : Bytes → ℕ → Action → Instruction → Scan
advance s l action x =
    if leb (length s) l
    then record { last = none; i = none; last_action = next_last_action action; instruction = x }
    else record {
      last = some l;
      i = find_first_of is_special s l;
      last_action = next_last_action action;
      instruction = x;
    }

-- The end of a round: a call is taken, unless nothing stands before the action.
unfoldable pub take_call : Bytes → ℕ → ℕ → Action → Action → Instruction → Outcome Scan
unfolding piece advance action_size
take_call s last i last_action action x =
    if last == i
    then Outcome.done (record {
      last = some (suc i);
      i = find_first_of is_special s (suc i);
      last_action = last_action;
      instruction = x;
    })
    else proceed (parse_call (piece s last i) 0 1) (λ (c : Call). Outcome.done (
        advance s (i + action_size action) action (record x {
          calls = x.calls ++ (record { call = c; last_action = last_action; action = action } ∷ []);
        })))

-- A round of the `while` at i.
unfoldable pub scan_round : Bytes → ℕ → ℕ → Scan → Outcome Scan
unfolding see skip_quoted take_call
scan_round s last i x = elim (see s i) [
  | again ↦ Outcome.done (record x { i = skip_quoted s i })
  | acts action background parse_error ↦
      take_call s last i (x.last_action) action (record (x.instruction) {
        background = x.instruction.background || background;
        parse_error = x.instruction.parse_error || parse_error;
      })
]

-- What stands behind the last action becomes the last call, unless it was `&`.
unfoldable pub finish : Bytes → Scan → Outcome Instruction
finish s x = if x.instruction.background then Outcome.done (x.instruction) else elim (x.last) [
  | none ↦ Outcome.out_of_range
  | some last ↦
      if ltb (length s) last
      then Outcome.out_of_range
      else proceed (parse_call (drop last s) 0 1) (λ (c : Call).
        Outcome.done (record (x.instruction) {
          calls =
              x.instruction.calls
              ++ (record { call = c; last_action = x.last_action; action = Action.last } ∷ []);
        }))
]

-- The `while`.
unfoldable pub scan : ℕ → Bytes → Scan → Outcome Instruction
unfolding scan_round finish
scan zero s x = Outcome.no_fuel
scan (suc fuel) s x = if x.instruction.parse_error then finish s x else elim (x.i) [
  | none ↦ finish s x
  | some i ↦ elim (x.last) [
    | none ↦ finish s x
    | some last ↦
        if ltb last (length s) then proceed (scan_round s last i x) (scan fuel s) else finish s x
  ]
]

-- `Instruction::Instruction(const std::string &_s)`
unfoldable pub parse_instruction : ℕ → Bytes → Outcome Instruction
unfolding scan
parse_instruction fuel text =
    let s = trimmed text in
    scan fuel s (record {
      last = some 0;
      i = find_first_of is_special s 0;
      last_action = Action.first;
      instruction = record { calls = []; background = false; parse_error = false };
    })

-- `Instruction::output_instruction`. A `bool` is printed as 0 or 1, and numbers as `to_chars` says.
unfoldable pub action_name : Action → Bytes
action_name Action.first = codes "FIRST"
action_name Action.and = codes "AND"
action_name Action.or = codes "OR"
action_name Action.simultaneously = codes "SIMULTANEOUSLY"
action_name Action.last = codes "LAST"

unfoldable pub output_calls : (ℕ → Bytes) → ℕ → List Step → Bytes
unfolding action_name
output_calls to_chars i [] = []
output_calls to_chars i (x ∷ xs) =
    codes "Call #"
    ++ (to_chars i
        ++ (codes ": "
            ++ (action_name (x.last_action)
                ++ (codes " "
                    ++ (action_name (x.action)
                        ++ (10 ∷ (output_call (x.call) ++ output_calls to_chars (i + 1) xs)))))))

unfoldable pub output_instruction : (ℕ → Bytes) → Instruction → Bytes
unfolding output_calls
output_instruction to_chars x =
    codes "Total calls: "
    ++ (to_chars (length (x.calls))
        ++ (10
            ∷ (codes "Background: "
                ++ (to_chars (if x.background then 1 else 0)
                    ++ (10 ∷ (output_calls to_chars 0 (x.calls) ++ (10 ∷ [])))))))
