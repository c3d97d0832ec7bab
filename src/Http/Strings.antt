-- ===== src/Http/Strings.antt =====
-- sphere_prac/http_server: what its parser uses of `std::string`, and what it adds.
use mathlib.Core.Option
use technosphere.Cache.Stream.{skip_ws, is_empty}
use technosphere.Common.Bytes.{Bytes, isspace, drop-append, take-append}
use technosphere.Common.{
  ℕ, zero, suc, ◌+◌, ◌-◌, ◌≡◌, refl, ap, ◌∙◌, Bool, true, false, ◌&&◌, Option, none, some, [], ◌∷◌,
  ◌++◌, arith, ltb, leb, ◌==◌, if◌then◌else◌, take, drop, length, map,
}

-- `s.find(c, i)`
unfoldable pub find_char : ℕ → Bytes → ℕ → Option ℕ
find_char c [] i = none
find_char c (x ∷ s) zero = if x == c then some 0 else Option.map suc (find_char c s 0)
find_char c (x ∷ s) (suc i) = Option.map suc (find_char c s i)

-- `s.substr(i, pst - i)`, where `pst` is npos or a position from i on
unfoldable pub substr_to : Bytes → ℕ → Option ℕ → Bytes
substr_to s i none = drop i s
substr_to s i (some p) = take (p - i) (drop i s)

-- `pst + 1`, which is 0 for npos
unfoldable pub behind : Option ℕ → ℕ
behind none = 0
behind (some p) = suc p

-- The order of `std::string`, by its bytes.
unfoldable pub bytes_lt : Bytes → Bytes → Bool
bytes_lt [] [] = false
bytes_lt [] (y ∷ b) = true
bytes_lt (x ∷ a) [] = false
bytes_lt (x ∷ a) (y ∷ b) =
    let rest = bytes_lt a b in if ltb x y then true else if ltb y x then false else rest

-- The byte does not occur.
abbrev pub Without : ℕ → Bytes → Type 0
Without c [] = Unit
Without c (x ∷ s) = ((x == c) ≡ false) × Without c s

pub find_char-found :
    (c : ℕ) (pre a t : Bytes)
    → Without c a
    → find_char c (pre ++ (a ++ (c ∷ t))) (length pre) ≡ some (length pre + length a)
unfolding find_char
find_char-found c [] [] t h = ground arith
find_char-found c [] (x ∷ a) t h = ground (arith, find_char-found c [] a t h.1)
find_char-found c (x ∷ pre) a t h = ground (arith, find_char-found c pre a t h)

pub find_char-none :
    (c : ℕ) (pre a : Bytes) → Without c a → find_char c (pre ++ a) (length pre) ≡ none
unfolding find_char
find_char-none c [] [] h = refl
find_char-none c [] (x ∷ a) h = ground (arith, find_char-none c [] a h.1)
find_char-none c (x ∷ pre) a h = ground (arith, find_char-none c pre a h)

pub substr_to-found :
    (pre a t : Bytes) → substr_to (pre ++ (a ++ t)) (length pre) (some (length pre + length a)) ≡ a
unfolding substr_to
substr_to-found pre a t =
    let e : length pre + length a - length pre ≡ length a = omega arith in
    ap (λ (s : Bytes). take (length pre + length a - length pre) s) (drop-append pre (a ++ t))
    ∙ ap (λ (n : ℕ). take n (a ++ t)) e
    ∙ take-append a t

-- `Request::trim`
unfoldable pub trim_end : Bytes → Bytes
trim_end [] = []
trim_end (c ∷ s) = let rest = trim_end s in if is_empty rest && isspace c then [] else c ∷ rest

unfoldable pub trim : Bytes → Bytes
unfolding trim_end
trim s = trim_end (skip_ws s)

-- `std::all_of(s.begin(), s.end(), ::isspace)`
unfoldable pub all_space : Bytes → Bool
all_space [] = true
all_space (c ∷ s) = isspace c && all_space s

-- `tolower` in the C locale, on a whole string
abbrev pub lower : Bytes → Bytes
lower = map (λ (c : ℕ). if leb 65 c && leb c 90 then c + 32 else c)

-- `s.substr(0, s.size() - 1)`
unfoldable pub without_last : Bytes → Bytes
without_last [] = []
without_last (c ∷ []) = []
without_last (c ∷ d ∷ s) = c ∷ without_last (d ∷ s)
