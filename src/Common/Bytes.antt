-- ===== src/Common/Bytes.antt =====
-- `std::string` and C strings as lists of bytes.
use Prim.Native.Char.{code}
use Prim.Native.String.{String}
use mathlib.Core.List.{append_assoc}
use technosphere.Common.{
  suc, ◌+◌, take, drop, length, length-append, ap, sym, ◌∙◌, ℕ, ◌≡◌, ◌↔◌, Bool, true, false, ◌&&◌,
  ◌||◌, List, [], ◌∷◌, ◌++◌, refl, arith, leb, ◌==◌, if◌then◌else◌,
}

abbrev pub Bytes : Type 0
Bytes = List ℕ

-- The bytes of an ASCII literal.
abbrev pub codes : String → Bytes
codes String.[] = []
codes (String.◌∷◌ c s) = code c ∷ codes s

-- What a C function sees of `s.data()`: the bytes before the first NUL.
unfoldable pub c_str : Bytes → Bytes
c_str [] = []
c_str (c ∷ s) = if c == 0 then [] else c ∷ c_str s

-- `isspace` in the C locale.
abbrev pub isspace : ℕ → Bool
isspace c = c == 32 || (leb 9 c && leb c 13)

-- No byte is NUL.
abbrev pub NoNul : Bytes → Type 0
NoNul [] = Unit
NoNul (c ∷ s) = ((c == 0) ≡ false) × NoNul s

pub c_str-NoNul : (s : Bytes) → NoNul s → c_str s ≡ s
unfolding c_str
c_str-NoNul [] h = refl
c_str-NoNul (c ∷ s) h = ground (arith, c_str-NoNul s h.1)

pub c_str-append : (a b : Bytes) → NoNul a → c_str (a ++ b) ≡ a ++ c_str b
unfolding c_str
c_str-append [] b h = refl
c_str-append (c ∷ a) b h = ground (arith, c_str-append a b h.1)

-- `a == b` on strings.
unfoldable pub bytes_eq : Bytes → Bytes → Bool
bytes_eq [] [] = true
bytes_eq (x ∷ a) (y ∷ b) = x == y && bytes_eq a b
bytes_eq _ _ = false

pub bytes_eq_iff : (a b : Bytes) → (bytes_eq a b ≡ true) ↔ (a ≡ b)
unfolding bytes_eq
bytes_eq_iff [] [] = ground arith
bytes_eq_iff [] (y ∷ b) = ground arith
bytes_eq_iff (x ∷ a) [] = ground arith
bytes_eq_iff (x ∷ a) (y ∷ b) = ground (arith, bytes_eq_iff a b)

pub drop-append : (pre t : Bytes) → drop (length pre) (pre ++ t) ≡ t
drop-append [] t = refl
drop-append (x ∷ pre) t = drop-append pre t

pub take-append : (a t : Bytes) → take (length a) (a ++ t) ≡ a
take-append [] t = refl
take-append (x ∷ a) t = rw (take-append a t)

-- The front of a text up to a byte, moved into what stands before.
pub move_front : (pre a t : Bytes) (c : ℕ) → pre ++ (a ++ (c ∷ t)) ≡ (pre ++ (a ++ (c ∷ []))) ++ t
move_front pre a t c =
    ap (λ (s : Bytes). pre ++ s) (sym (append_assoc a (c ∷ []) t))
    ∙ sym (append_assoc pre (a ++ (c ∷ [])) t)

pub length-move_front :
    (pre a : Bytes) (c : ℕ) → length (pre ++ (a ++ (c ∷ []))) ≡ suc (length pre + length a)
length-move_front pre a c =
    omega (arith, length-append pre (a ++ (c ∷ [])), length-append a (c ∷ []))
