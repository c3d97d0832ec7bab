-- ===== src/Shell/CallParser/Reads.antt =====
-- The loop of `Call::Call` on a list of words, each with a space behind it.
use mathlib.Core.List.{append_assoc}
use mathlib.Core.Path.{subst}
use technosphere.Common.Bytes.{Bytes, isspace}
use technosphere.Common.{
  ℕ, zero, suc, ◌<◌, ◌≡◌, refl, sym, ap, ◌∙◌, true, false, [], ◌∷◌, ◌++◌, ◌==◌, ◌⊎◌, arith, length,
  length-append, inl, inr,
}
use technosphere.Shell.Call.{Call}
use technosphere.Shell.CallParser.Words.{at, at-word, at-quoted, quoted}
use technosphere.Shell.CallParser.{Reader, store, redirect, call_loop, ends_token}
use technosphere.Shell.Text.{Outcome, find_first_of-none, Avoids, is_quote}

-- A word without delimiters, quotes and white space; or one in quotes.
abbrev pub IsPlain : Bytes → Type 0
IsPlain w = (0 < length w) × Avoids ends_token w × Avoids isspace w

abbrev pub IsQuoted : Bytes → Type 0
IsQuoted w =
    (c : ℕ) × (a : Bytes) × (w ≡ quoted c a) × (is_quote c ≡ true) × Avoids (λ (d : ℕ). d == c) a

abbrev pub IsWord : Bytes → Type 0
IsWord w = IsPlain w ⊎ IsQuoted w

-- From `t` on the loop ends with the call.
abbrev pub Reads : Bytes → Reader → Call → Type 0
Reads t r c = (pre : Bytes) (fuel : ℕ) → length t < fuel → at fuel pre t r ≡ Outcome.done c

pub Reads-end : (r : Reader) → Reads [] r (r.call)
unfolding call_loop
Reads-end r pre zero h = absurd (omega arith)
Reads-end r pre (suc fuel) h = rw (find_first_of-none ends_token pre [] tt) refl

pub Reads-plain :
    (a t : Bytes) (d : ℕ) (r : Reader) (c : Call)
    → Avoids ends_token a
    → ends_token d ≡ true
    → is_quote d ≡ false
    → Reads t (redirect d (store a r)) c
    → Reads (a ++ (d ∷ t)) r c
Reads-plain a t d r c h k q rest pre zero l = absurd (omega arith)
Reads-plain a t d r c h k q rest pre (suc fuel) l =
    at-word fuel pre a t d r h k q
    ∙ rest (pre ++ (a ++ (d ∷ []))) fuel (omega (arith, l, length-append a (d ∷ t)))

redirect-quote : (c : ℕ) (r : Reader) → is_quote c ≡ true → redirect c r ≡ r
unfolding redirect
redirect-quote c r h = ground (arith, h)

Reads-quoted :
    (a t : Bytes) (d : ℕ) (r : Reader) (c : Call)
    → Avoids (λ (x : ℕ). x == d) a
    → is_quote d ≡ true
    → Reads t (store (quoted d a) r) c
    → Reads (d ∷ (a ++ (d ∷ t))) r c
Reads-quoted a t d r c h q rest pre zero l = absurd (omega arith)
Reads-quoted a t d r c h q rest pre (suc fuel) l =
    at-quoted fuel pre a t d r h q
    ∙ ap (λ (x : Reader). at fuel (pre ++ quoted d a) t x)
        (redirect-quote d (store (quoted d a) r) q)
    ∙ rest (pre ++ quoted d a) fuel (omega (arith, l, length-append a (d ∷ t)))

-- A word and the space behind it.
pub Reads-word :
    (w t : Bytes) (r : Reader) (c : Call)
    → IsWord w
    → Reads t (store w r) c
    → Reads (w ++ (32 ∷ t)) r c
unfolding redirect store
Reads-word w t r c (inl p) rest = Reads-plain w t 32 r c p.1 refl refl rest
Reads-word w t r c (inr (d, a, e, q, h)) rest =
    subst (λ (s : Bytes). Reads s r c) (sym text)
      (Reads-quoted a (32 ∷ t) d r c h q (
        Reads-plain [] t 32 (store (quoted d a) r) c tt refl refl
          (subst (λ (u : Bytes). Reads t (store u r) c) e rest)))
  where
    text : w ++ (32 ∷ t) ≡ d ∷ (a ++ (d ∷ 32 ∷ t))
    text =
        ap (λ (u : Bytes). u ++ (32 ∷ t)) e
        ∙ ap (λ (u : Bytes). d ∷ u) (append_assoc a (d ∷ []) (32 ∷ t))
