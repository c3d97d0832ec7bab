-- ===== src/Shell/Text.antt =====
-- sphere_prac/p4: what the two parsers use of std::string. A position is none for `npos`.
use mathlib.Core.List.{append_assoc}
use mathlib.Core.Option
use technosphere.Common.Bytes.{Bytes, isspace}
use technosphere.Common.{
  ℕ, zero, suc, ◌+◌, ◌-◌, ◌≤◌, ◌<◌, ◌≡◌, sym, ap, ◌∙◌, length-append, refl, Bool, true, false, ◌&&◌,
  ◌||◌, Option, none, some, [], ◌∷◌, ◌++◌, arith, ◌==◌, if◌then◌else◌, take, drop, length, get_or,
  Bool-cases, Option-cases, inl, inr,
}

-- How a constructor ends: with an object, with the exception of `substr`, in undefined behaviour, or,
-- beyond the fuel, not at all.
pub data Outcome (A : Type 0) : Type 0 where
  done : A → Outcome A
  out_of_range undefined no_fuel : Outcome A

unfoldable pub proceed : {A B : Type 0} → Outcome A → (A → Outcome B) → Outcome B
proceed (Outcome.done x) f = f x
proceed Outcome.out_of_range f = Outcome.out_of_range
proceed Outcome.undefined f = Outcome.undefined
proceed Outcome.no_fuel f = Outcome.no_fuel

-- `s.find_first_of(set, i)`
unfoldable pub find_first_of : (ℕ → Bool) → Bytes → ℕ → Option ℕ
find_first_of set [] i = none
find_first_of set (c ∷ s) zero =
    let rest = Option.map suc (find_first_of set s 0) in if set c then some 0 else rest
find_first_of set (c ∷ s) (suc i) = Option.map suc (find_first_of set s i)

-- The two loops of the trimming: the position `l` of the first byte that is no white space, and `r + 1`,
-- one behind the last.
unfoldable pub first_text : Bytes → ℕ
first_text [] = 0
first_text (c ∷ s) = let rest = first_text s in if isspace c then suc rest else 0

unfoldable pub end_text : Bytes → ℕ
end_text [] = 0
end_text (c ∷ s) = let rest = end_text s in if rest == 0 && isspace c then 0 else suc rest

-- `_s.substr(l, r - l + 1) + " "`. On a blank string the length wraps around, and nothing is left all
-- the same, since l is the end.
unfoldable pub trimmed : Bytes → Bytes
unfolding first_text end_text
trimmed s = take (end_text s - first_text s) (drop (first_text s) s) ++ (32 ∷ [])

abbrev pub quote : ℕ
quote = 39

abbrev pub double_quote : ℕ
double_quote = 34

abbrev pub is_quote : ℕ → Bool
is_quote c = c == quote || c == double_quote

-- No byte of the set occurs.
abbrev pub Avoids : (ℕ → Bool) → Bytes → Type 0
Avoids set [] = Unit
Avoids set (c ∷ s) = (set c ≡ false) × Avoids set s

pub find_first_of-le :
    (set : ℕ → Bool) (s : Bytes) (i j : ℕ)
    → find_first_of set s i ≡ some j
    → (i ≤ j) × (j < length s)
unfolding find_first_of
find_first_of-le set [] i j h = ground (arith, h)
find_first_of-le set (c ∷ s) zero j h = elim (Bool-cases (set c)) [
  | inl e ↦ ground (arith, e, h)
  | inr e ↦ elim (Option-cases (find_first_of set s 0)) [
    | inl f ↦ ground (arith, e, f, h)
    | inr (k, f) ↦ let below = (find_first_of-le set s 0 k f).1 in ground (arith, e, f, h, below)
  ]
]
find_first_of-le set (c ∷ s) (suc i) j h = elim (Option-cases (find_first_of set s i)) [
  | inl f ↦ ground (arith, f, h)
  | inr (k, f) ↦ let (le, below) = find_first_of-le set s i k f in ground (arith, f, h, le, below)
]

pub find_first_of-found :
    (set : ℕ → Bool) (pre a : Bytes) (c : ℕ) (t : Bytes)
    → Avoids set a
    → set c ≡ true
    → find_first_of set (pre ++ (a ++ (c ∷ t))) (length pre) ≡ some (length pre + length a)
unfolding find_first_of
find_first_of-found set [] [] c t h k = ground (arith, k)
find_first_of-found set [] (x ∷ a) c t h k =
    ground (arith, h.0, find_first_of-found set [] a c t h.1 k)
find_first_of-found set (x ∷ pre) a c t h k = ground (arith, find_first_of-found set pre a c t h k)

pub find_first_of-none :
    (set : ℕ → Bool) (pre a : Bytes)
    → Avoids set a
    → find_first_of set (pre ++ a) (length pre) ≡ none
unfolding find_first_of
find_first_of-none set [] [] h = refl
find_first_of-none set [] (x ∷ a) h = ground (arith, h.0, find_first_of-none set [] a h.1)
find_first_of-none set (x ∷ pre) a h = ground (arith, find_first_of-none set pre a h)

pub get_or-append : (pre t : Bytes) (c : ℕ) → get_or (pre ++ (c ∷ t)) (length pre) 0 ≡ c
get_or-append [] t c = refl
get_or-append (x ∷ pre) t c = get_or-append pre t c

-- The byte behind a front of a text.
pub get_or-between :
    (pre a t : Bytes) (c : ℕ) → get_or (pre ++ (a ++ (c ∷ t))) (length pre + length a) 0 ≡ c
get_or-between pre a t c =
    ap (λ (u : Bytes). get_or u (length pre + length a) 0) (sym (append_assoc pre a (c ∷ t)))
    ∙ ap (λ (n : ℕ). get_or ((pre ++ a) ++ (c ∷ t)) n 0) (sym (length-append pre a))
    ∙ get_or-append (pre ++ a) t c
