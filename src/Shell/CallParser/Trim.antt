-- ===== src/Shell/CallParser/Trim.antt =====
-- A call written as a line: its text, and how it is trimmed.
use mathlib.Core.List.{append_assoc}
use mathlib.Core.Path.{subst}
use technosphere.Common.Bytes.{Bytes, isspace, take-append}
use technosphere.Common.{
  ℕ, suc, ◌+◌, ◌-◌, ◌<◌, ◌≡◌, refl, sym, ap, ◌∙◌, List, [], ◌∷◌, ◌++◌, ◌⊎◌, arith, length,
  length-append, inl, inr, take,
}
use technosphere.Shell.Call.{Call}
use technosphere.Shell.CallParser.Reads.{IsWord}
use technosphere.Shell.Text.{Avoids, first_text, end_text, trimmed}

-- The arguments and then `t`, each with a space behind it.
abbrev pub written_args : List Bytes → Bytes → Bytes
written_args [] t = t
written_args (a ∷ rest) t = a ++ (32 ∷ written_args rest t)

abbrev pub written_file : ℕ → Bytes → Bytes → Bytes
written_file sign [] t = t
written_file sign (c ∷ f) t = sign ∷ ((c ∷ f) ++ (32 ∷ t))

-- `command arg … <input >output `
abbrev pub written : Call → Bytes
written c =
    c.command
    ++ (32
        ∷ written_args (c.args)
            (written_file 60 (c.input_file) (written_file 62 (c.output_file) [])))

abbrev pub AllWords : List Bytes → Type 0
AllWords [] = Unit
AllWords (a ∷ rest) = IsWord a × AllWords rest

abbrev pub IsFile : Bytes → Type 0
IsFile f = (f ≡ []) ⊎ IsWord f

pub record IsWritten (c : Call) : Type 0 where
  pub command : IsWord (c.command)
  pub args : AllWords (c.args)
  pub input_file : IsFile (c.input_file)
  pub output_file : IsFile (c.output_file)

pub word-length : (w : Bytes) → IsWord w → 0 < length w
word-length w (inl p) = p.0
word-length w (inr (d, a, e, q, h)) = omega (arith, ap length e)

-- The line ends with the only space behind its text.
end_text-append : (x s : Bytes) → 0 < end_text s → end_text (x ++ s) ≡ length x + end_text s
unfolding end_text
end_text-append [] s h = omega arith
end_text-append (c ∷ x) s h = let e = end_text-append x s h in ground (arith, e)

end_text-plain : (w : Bytes) → Avoids isspace w → end_text (w ++ (32 ∷ [])) ≡ length w
unfolding end_text
end_text-plain [] h = refl
end_text-plain (c ∷ w) h = let e = end_text-plain w h.1 in ground (arith, e, h.0)

end_text-word : (w : Bytes) → IsWord w → end_text (w ++ (32 ∷ [])) ≡ length w
unfolding end_text
end_text-word w (inl p) = end_text-plain w p.2
end_text-word w (inr (d, a, e, q, h)) =
    ap (λ (u : Bytes). end_text (u ++ (32 ∷ []))) e
    ∙ ap end_text (append_assoc (d ∷ a) (d ∷ []) (32 ∷ []))
    ∙ end_text-append (d ∷ a) (d ∷ 32 ∷ []) (omega (arith, last))
    ∙ (let n : suc (length a) + end_text (d ∷ 32 ∷ []) ≡ suc (length (a ++ (d ∷ []))) =
          omega (arith, last, length-append a (d ∷ [])) in
        n)
    ∙ sym (ap length e)
  where
    last : end_text (d ∷ 32 ∷ []) ≡ 1
    last = ground (arith, q)

-- One space stands at the end, and no other white space before it.
abbrev pub EndsOnce : Bytes → Type 0
EndsOnce s = (a : Bytes) × (s ≡ a ++ (32 ∷ [])) × (end_text s ≡ length a) × (0 < length a)

pub EndsOnce-append : (x s : Bytes) → EndsOnce s → EndsOnce (x ++ s)
EndsOnce-append x s (a, e, l, h) = (
  x ++ a,
  ap (λ (u : Bytes). x ++ u) e ∙ sym (append_assoc x a (32 ∷ [])),
  end_text-append x s (omega (arith, l))
      ∙ (let n : length x + end_text s ≡ length (x ++ a) = omega (arith, l, length-append x a) in
          n),
  omega (arith, length-append x a),
)

pub EndsOnce-word : (w t : Bytes) → IsWord w → (t ≡ []) ⊎ EndsOnce t → EndsOnce (w ++ (32 ∷ t))
EndsOnce-word w t h (inl e) = (
  w,
  ap (λ (u : Bytes). w ++ (32 ∷ u)) e,
  ap (λ (u : Bytes). end_text (w ++ (32 ∷ u))) e ∙ end_text-word w h,
  word-length w h,
)
EndsOnce-word w t h (inr k) =
    subst EndsOnce (append_assoc w (32 ∷ []) t) (EndsOnce-append (w ++ (32 ∷ [])) t k)

pub EndsOnce-file :
    (sign : ℕ) (f t : Bytes)
    → IsFile f
    → (t ≡ []) ⊎ EndsOnce t
    → (written_file sign f t ≡ []) ⊎ EndsOnce (written_file sign f t)
EndsOnce-file sign [] t h k = k
EndsOnce-file sign (x ∷ f) t (inl n) k = absurd (omega (arith, ap length n))
EndsOnce-file sign (x ∷ f) t (inr w) k =
    inr (EndsOnce-append (sign ∷ []) ((x ∷ f) ++ (32 ∷ t)) (EndsOnce-word (x ∷ f) t w k))

pub EndsOnce-args :
    (words : List Bytes) (t : Bytes)
    → AllWords words
    → (t ≡ []) ⊎ EndsOnce t
    → (written_args words t ≡ []) ⊎ EndsOnce (written_args words t)
EndsOnce-args [] t h k = k
EndsOnce-args (w ∷ words) t h k =
    inr (EndsOnce-word w (written_args words t) h.0 (EndsOnce-args words t h.1 k))

pub first_text-word : (w t : Bytes) → IsWord w → first_text (w ++ t) ≡ 0
unfolding first_text
first_text-word [] t (inl p) = absurd (omega (arith, p.0))
first_text-word (c ∷ w) t (inl p) = ground (arith, p.2.0)
first_text-word w t (inr (d, a, e, q, h)) =
    ap (λ (u : Bytes). first_text (u ++ t)) e ∙ ground (arith, q)

pub trimmed-EndsOnce : (s : Bytes) → first_text s ≡ 0 → EndsOnce s → trimmed s ≡ s
unfolding trimmed
trimmed-EndsOnce s f (a, e, l, h) =
    let n : end_text s - first_text s ≡ length a = omega (arith, f, l) in
    rw (n, f)
      (ap (λ (u : Bytes). take (length a) u ++ (32 ∷ [])) e
        ∙ ap (λ (u : Bytes). u ++ (32 ∷ [])) (take-append a (32 ∷ []))
        ∙ sym e)

pub written-EndsOnce : (c : Call) → IsWritten c → EndsOnce (written c)
written-EndsOnce c h = EndsOnce-word (c.command) _ (h.command) (
    EndsOnce-args (c.args) _ (h.args) (
      EndsOnce-file 60 (c.input_file) _ (h.input_file)
        (EndsOnce-file 62 (c.output_file) [] (h.output_file) (inl refl))))
