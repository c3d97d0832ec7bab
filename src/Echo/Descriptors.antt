-- ===== src/Echo/Descriptors.antt =====
-- `std::set<int>` of the poll and select servers, as the ascending list of its members.
use technosphere.Common.{
  ◌≡◌, inl, inr, refl, ap, sym, ◌∙◌, Bool, true, false, none, some, List, [], ◌∷◌, if◌then◌else◌,
  Bool-cases, arith,
}
use technosphere.Echo.Calls.{Fd, fd_eq, fd_lt}

unfoldable pub insert : Fd → List Fd → List Fd
insert x [] = x ∷ []
insert x (y ∷ ys) =
    let rest = insert x ys in
    if fd_lt x y then x ∷ (y ∷ ys) else if fd_lt y x then y ∷ rest else y ∷ ys

unfoldable pub erase : Fd → List Fd → List Fd
erase x [] = []
erase x (y ∷ ys) = let rest = erase x ys in if fd_eq x y then ys else y ∷ rest

unfoldable pub member : Fd → List Fd → Bool
member x [] = false
member x (y ∷ ys) = if fd_eq x y then true else member x ys

-- Every member of the list is above x.
abbrev pub Above : Fd → List Fd → Type 0
Above x [] = Unit
Above x (y ∷ ys) = (fd_lt x y ≡ true) × Above x ys

abbrev pub IsAscending : List Fd → Type 0
IsAscending [] = Unit
IsAscending (y ∷ ys) = Above y ys × IsAscending ys

fd_lt_trans : (x y z : Fd) → fd_lt x y ≡ true → fd_lt y z ≡ true → fd_lt x z ≡ true
fd_lt_trans none none z h k = absurd (ground (arith, h))
fd_lt_trans none (some y) none h k = absurd (ground (arith, k))
fd_lt_trans none (some y) (some z) h k = refl
fd_lt_trans (some x) none z h k = absurd (ground (arith, h))
fd_lt_trans (some x) (some y) none h k = absurd (ground (arith, k))
fd_lt_trans (some x) (some y) (some z) h k = ground (arith, h, k)

fd_lt_total : (x y : Fd) → fd_lt x y ≡ false → fd_lt y x ≡ false → fd_eq x y ≡ true
fd_lt_total none none h k = refl
fd_lt_total none (some y) h k = absurd (ground (arith, h))
fd_lt_total (some x) none h k = absurd (ground (arith, k))
fd_lt_total (some x) (some y) h k = ground (arith, h, k)

pub fd_lt_ne : (x y : Fd) → fd_lt x y ≡ true → fd_eq x y ≡ false
fd_lt_ne none none h = absurd (ground (arith, h))
fd_lt_ne none (some y) h = refl
fd_lt_ne (some x) none h = refl
fd_lt_ne (some x) (some y) h = ground (arith, h)

pub fd_eq_lem : (x y : Fd) → fd_eq x y ≡ true → x ≡ y
fd_eq_lem none none h = refl
fd_eq_lem none (some y) h = absurd (ground (arith, h))
fd_eq_lem (some x) none h = absurd (ground (arith, h))
fd_eq_lem (some x) (some y) h = ap some (ground (arith, h))

pub fd_eq_sym : (x y : Fd) → fd_eq x y ≡ fd_eq y x
fd_eq_sym none none = refl
fd_eq_sym none (some y) = refl
fd_eq_sym (some x) none = refl
fd_eq_sym (some x) (some y) = ground arith

pub fd_eq_refl : (x : Fd) → fd_eq x x ≡ true
fd_eq_refl none = refl
fd_eq_refl (some x) = ground arith

Above-trans : (x y : Fd) (ys : List Fd) → fd_lt x y ≡ true → Above y ys → Above x ys
Above-trans x y [] h a = tt
Above-trans x y (z ∷ zs) h a = (fd_lt_trans x y z h a.0, Above-trans x y zs h a.1)

Above-insert : (x y : Fd) (ys : List Fd) → fd_lt x y ≡ true → Above x ys → Above x (insert y ys)
unfolding insert
Above-insert x y [] h a = (h, tt)
Above-insert x y (z ∷ zs) h a = elim (Bool-cases (fd_lt y z)) [
  | inl e ↦ rw e (h, (a.0, a.1))
  | inr e ↦ elim (Bool-cases (fd_lt z y)) [
    | inl f ↦ rw (e, f) (a.0, Above-insert x y zs h a.1)
    | inr f ↦ rw (e, f) a
  ]
]

Above-erase : (x y : Fd) (ys : List Fd) → Above x ys → Above x (erase y ys)
unfolding erase
Above-erase x y [] a = tt
Above-erase x y (z ∷ zs) a = elim (Bool-cases (fd_eq y z)) [
  | inl e ↦ rw e (a.1)
  | inr e ↦ rw e (a.0, Above-erase x y zs a.1)
]

pub insert-IsAscending : (x : Fd) (ys : List Fd) → IsAscending ys → IsAscending (insert x ys)
unfolding insert
insert-IsAscending x [] a = (tt, tt)
insert-IsAscending x (y ∷ ys) a = elim (Bool-cases (fd_lt x y)) [
  | inl e ↦ rw e ((e, Above-trans x y ys e a.0), a)
  | inr e ↦ elim (Bool-cases (fd_lt y x)) [
    | inl f ↦ rw (e, f) (Above-insert y x ys f a.0, insert-IsAscending x ys a.1)
    | inr f ↦ rw (e, f) a
  ]
]

pub erase-IsAscending : (x : Fd) (ys : List Fd) → IsAscending ys → IsAscending (erase x ys)
unfolding erase
erase-IsAscending x [] a = tt
erase-IsAscending x (y ∷ ys) a = elim (Bool-cases (fd_eq x y)) [
  | inl e ↦ rw e (a.1)
  | inr e ↦ rw e (Above-erase y x ys a.0, erase-IsAscending x ys a.1)
]

pub Above-member : (x : Fd) (ys : List Fd) → Above x ys → member x ys ≡ false
unfolding member
Above-member x [] a = refl
Above-member x (y ∷ ys) a = rw (fd_lt_ne x y a.0) (Above-member x ys a.1)

either_first :
    (a b c : Bool)
    → (if a then true else if b then true else c) ≡ (if b then true else if a then true else c)
either_first true true c = refl
either_first true false c = refl
either_first false b c = refl

twice : (a c : Bool) → (if a then true else c) ≡ (if a then true else if a then true else c)
twice true c = refl
twice false c = refl

pub member-insert :
    (x y : Fd) (ys : List Fd) → member x (insert y ys) ≡ (if fd_eq x y then true else member x ys)
unfolding member insert
member-insert x y [] = refl
member-insert x y (z ∷ zs) = elim (Bool-cases (fd_lt y z)) [
  | inl e ↦ rw e refl
  | inr e ↦ elim (Bool-cases (fd_lt z y)) [
    | inl f ↦
        rw (e, f)
          (ap (λ (b : Bool). if fd_eq x z then true else b) (member-insert x y zs)
            ∙ either_first (fd_eq x z) (fd_eq x y) (member x zs))
    | inr f ↦
        let same : fd_eq x z ≡ fd_eq x y =
          ap (fd_eq x) (sym (fd_eq_lem y z (fd_lt_total y z e f))) in
        rw (e, f, same) (twice (fd_eq x y) (member x zs))
  ]
]

pub member-erase :
    (x y : Fd) (ys : List Fd)
    → IsAscending ys
    → member x (erase y ys) ≡ (if fd_eq x y then false else member x ys)
unfolding member erase
member-erase x y [] a = elim (Bool-cases (fd_eq x y)) [ inl e ↦ rw e refl | inr e ↦ rw e refl ]
member-erase x y (z ∷ zs) a = elim (Bool-cases (fd_eq y z)) [
  | inl e ↦
      let same : fd_eq x z ≡ fd_eq x y = ap (fd_eq x) (sym (fd_eq_lem y z e)) in
      elim (Bool-cases (fd_eq x y)) [
        | inl f ↦
            let out : member x zs ≡ false =
              ap (λ (w : Fd). member w zs) (fd_eq_lem x y f ∙ fd_eq_lem y z e)
              ∙ Above-member z zs a.0 in
            rw (e, f, out) refl
        | inr f ↦ rw (e, same, f) refl
      ]
  | inr e ↦ elim (Bool-cases (fd_eq x z)) [
    | inl f ↦
        let same : fd_eq x y ≡ false =
          ap (λ (w : Fd). fd_eq w y) (fd_eq_lem x z f) ∙ fd_eq_sym z y ∙ e in
        rw (e, f, same) refl
    | inr f ↦ rw (e, f) (member-erase x y zs a.1)
  ]
]
