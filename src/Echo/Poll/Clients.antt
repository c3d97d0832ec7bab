-- ===== src/Echo/Poll/Clients.antt =====
-- The poll server knows its clients: its set is that of the open descriptors, and it uses no other.
use mathlib.Core.Option.{none-ne-some, some-injective}
use mathlib.Core.Path.{subst}
use technosphere.Common.{
  ℕ, ◌≡◌, ◌⊎◌, none, inl, inr, refl, ap, sym, ◌∙◌, Bool, true, false, not, Option, some, List, [],
  ◌∷◌, if◌then◌else◌, Bool-cases, arith, length, ltb,
}
use technosphere.Echo.Calls.{Fd, fd_eq, Event, Setup, recv, is_zero, fresh}
use technosphere.Echo.Descriptors.{
  insert, erase, member, IsAscending, Above, insert-IsAscending, erase-IsAscending, member-insert,
  member-erase, fd_lt_ne, fd_eq_sym, fd_eq_refl,
}
use technosphere.Echo.Live.{
  live, usable, IsSafe, Safe, recv-live, send-live, shut_and_close-live, set_nonblock-live,
  recv-Safe, send-Safe, shut_and_close-IsSafe, set_nonblock-IsSafe,
}
use technosphere.Echo.Poll.{Server, running, serve, accept, handle, handle_all, round, main}
use technosphere.Echo.Poll.Set.{round-lem}
use technosphere.Echo.Poll.Contract.{main-keeps, initial}

-- The set is ascending, its members other than -1 are the live descriptors, and only these were used.
pub record Known (s : Server) : Type 0 where
  pub ascending : IsAscending (s.slaves)
  pub members : (fd : ℕ) → member (some fd) (s.slaves) ≡ live (some fd) (s.io.calls)
  pub safe : IsSafe (s.io.calls)

can_use :
    (fd : Fd) (s : Server) → Known s → member fd (s.slaves) ≡ true → usable fd (s.io.calls) ≡ true
can_use none s w here = refl
can_use (some fd) s w here = sym (w.members fd) ∙ here

serve-Known :
    (fd : Fd) (e : Event) (s : Server)
    → member fd (s.slaves) ≡ true
    → Known s
    → Known (serve fd e s)
unfolding serve
serve-Known fd e s here w =
    let (size, io) = recv fd (e.received) (s.io) in
    let open_ : Safe fd (s.io.calls) = (can_use fd s w here, w.safe) in
    let got = recv-Safe fd (e.received) (s.io) open_ in
    elim (Bool-cases (is_zero ((recv fd (e.received) (s.io)).0))) [
      | inl z ↦ elim (Bool-cases (not (((recv fd (e.received) (s.io)).1).again))) [
        | inl f ↦
            rw (z, f)
              (record {
                ascending = erase-IsAscending fd (s.slaves) (w.ascending);
                members = λ x.
                    member-erase (some x) fd (s.slaves) (w.ascending)
                    ∙ ap (λ (b : Bool). if fd_eq (some x) fd then false else b)
                        (w.members x ∙ sym (recv-live (some x) fd (e.received) (s.io)))
                    ∙ sym (shut_and_close-live (some x) fd (e.end_errno) io);
                safe = shut_and_close-IsSafe fd (e.end_errno) io got;
              })
        | inr f ↦
            rw (z, f)
              (record {
                ascending = w.ascending;
                members = λ x. w.members x ∙ sym (recv-live (some x) fd (e.received) (s.io));
                safe = got.1;
              })
      ]
      | inr z ↦ rw z (record {
        ascending = w.ascending;
        members = λ x.
            w.members x
            ∙ sym (recv-live (some x) fd (e.received) (s.io))
            ∙ sym (send-live (some x) fd size (e.sent) io);
        safe = (send-Safe fd size (e.sent) io got).1;
      })
    ]

accept-Known : (e : Event) (s : Server) → Known s → Known (accept e s)
unfolding accept live
accept-Known e s w = record {
  ascending = insert-IsAscending (e.accepted) (s.slaves) (w.ascending);
  members = λ x.
      member-insert (some x) (e.accepted) (s.slaves)
      ∙ ap (λ (b : Bool). if fd_eq (some x) (e.accepted) then true else b) (w.members x)
      ∙ sym (set_nonblock-live (some x) (e.accepted) (e.getfl) _);
  safe = set_nonblock-IsSafe (e.accepted) (e.getfl) _ (w.safe);
}

-- The entries of the array that are still to come are members.
abbrev Members : List Fd → List Fd → Type 0
Members [] xs = Unit
Members (y ∷ ys) xs = (member y xs ≡ true) × Members ys xs

Members-insert : (ys : List Fd) (x : Fd) (xs : List Fd) → Members ys xs → Members ys (insert x xs)
Members-insert [] x xs h = tt
Members-insert (y ∷ ys) x xs h =
    (member-insert y x xs ∙ still (fd_eq y x) (member y xs) h.0, Members-insert ys x xs h.1)
  where
    still : (a b : Bool) → b ≡ true → (if a then true else b) ≡ true
    still true b h = refl
    still false b h = h

Members-erase :
    (ys : List Fd) (x : Fd) (xs : List Fd)
    → IsAscending xs
    → Above x ys
    → Members ys xs
    → Members ys (erase x xs)
Members-erase [] x xs a b h = tt
Members-erase (y ∷ ys) x xs a b h =
    let other : fd_eq y x ≡ false = fd_eq_sym y x ∙ fd_lt_ne x y b.0 in
    (
      member-erase y x xs a ∙ ap (λ (c : Bool). if c then false else member y xs) other ∙ h.0,
      Members-erase ys x xs a b.1 h.1,
    )

serve-Members :
    (fd : Fd) (e : Event) (s : Server) (ys : List Fd)
    → IsAscending (s.slaves)
    → Above fd ys
    → Members ys (s.slaves)
    → Members ys ((serve fd e s).slaves)
unfolding serve
serve-Members fd e s ys a b h = elim (Bool-cases (is_zero ((recv fd (e.received) (s.io)).0))) [
  | inl z ↦ elim (Bool-cases (not (((recv fd (e.received) (s.io)).1).again))) [
    | inl f ↦ rw (z, f) (Members-erase ys fd (s.slaves) a b h)
    | inr f ↦ rw (z, f) h
  ]
  | inr z ↦ rw z h
]

-- One entry, and then the rest of the array.
handle-Known :
    (fd : Fd) (e : Event) (s : Server) (ys : List Fd)
    → (member fd (s.slaves) ≡ true) ⊎ (fd_eq fd (some (s.master)) ≡ true)
    → (Above fd ys) ⊎ (fd_eq fd (some (s.master)) ≡ true)
    → Members ys (s.slaves)
    → Known s
    → Known (handle fd e s) × Members ys ((handle fd e s).slaves)
unfolding handle accept
handle-Known fd e s ys here above h w = elim (Bool-cases (e.readable)) [
  | inr r ↦ rw r (w, h)
  | inl r ↦ elim (Bool-cases (fd_eq fd (some (s.master)))) [
    | inl f ↦ rw (r, f) (accept-Known e s w, Members-insert ys (e.accepted) (s.slaves) h)
    | inr f ↦
        let member_ : member fd (s.slaves) ≡ true = elim here [
          | inl m ↦ m
          | inr m ↦ absurd (clash f m)
        ] in
        let above_ : Above fd ys = elim above [ inl m ↦ m | inr m ↦ absurd (clash f m) ] in
        rw (r, f) (serve-Known fd e s member_ w, serve-Members fd e s ys (w.ascending) above_ h)
  ]
]
  where
    clash : {b : Bool} → b ≡ false → b ≡ true → ⊥
    clash f m = ground (arith, sym f ∙ m)

handle_all-Known :
    (ys : List Fd) (es : List Event) (s : Server)
    → IsAscending ys
    → Members ys (s.slaves)
    → Known s
    → Known (handle_all ys es s)
unfolding handle_all
handle_all-Known [] es s a h w = w
handle_all-Known (y ∷ ys) [] s a h w = w
handle_all-Known (y ∷ ys) (e ∷ es) s a h w =
    let (known, rest) = handle-Known y e s ys (inl h.0) (inl a.0) h.1 w in
    handle_all-Known ys es (handle y e s) a.1 rest known

Members-of :
    (ys xs : List Fd) → ((x : Fd) → member x ys ≡ true → member x xs ≡ true) → Members ys xs
unfolding member
Members-of [] xs h = tt
Members-of (y ∷ ys) xs h = (
  h y (let e = fd_eq_refl y in rw e refl),
  Members-of ys xs
      (λ x k. h x (elim (Bool-cases (fd_eq x y)) [ inl e ↦ rw e refl | inr e ↦ rw e k ])),
)

round-Known : (es : List Event) (s s' : Server) → round es s ≡ some s' → Known s → Known s'
unfolding handle_all
round-Known es s s' e w =
    let run = sym (round-lem es s) ∙ e in
    elim (Bool-cases (ltb (length (s.slaves)) 32)) [
      | inr f ↦ absurd (none-ne-some s' (rw f at run))
      | inl f ↦
          let after : handle_all (some (s.master) ∷ (s.slaves)) es s ≡ s' =
            some-injective _ s' (rw f at run) in
          subst Known after (all es)
    ]
  where
    clients : Members (s.slaves) (s.slaves)
    clients = Members-of (s.slaves) (s.slaves) (λ x h. h)

    is_master : fd_eq (some (s.master)) (some (s.master)) ≡ true
    is_master = fd_eq_refl (some (s.master))

    all : (es : List Event) → Known (handle_all (some (s.master) ∷ (s.slaves)) es s)
    all [] = w
    all (e₁ ∷ es₁) =
        let (known, rest) =
          handle-Known (some (s.master)) e₁ s (s.slaves) (inr is_master) (inr is_master) clients
            w in
        handle_all-Known (s.slaves) es₁ (handle (some (s.master)) e₁ s) (w.ascending) rest known

-- In every run of `main` that stays defined, `SlaveSockets` is ascending, and the descriptors in it,
-- apart from the -1 of an `accept` that failed, are exactly those that were accepted and not closed
-- since; and the server receives, sends, shuts down and closes only on such a descriptor or on -1.
pub main-Known :
    (k : Setup) (ess : List (List Event)) (s : Server) → main k ess ≡ running s → Known s
unfolding member live
main-Known = main-keeps Known first round-Known
  where
    first : (master : ℕ) (getfl : Option ℕ) → Known (initial master getfl)
    first master getfl = record {
      ascending = tt;
      members = λ fd. sym (set_nonblock-live (some fd) (some master) getfl fresh);
      safe = set_nonblock-IsSafe (some master) getfl fresh tt;
    }
