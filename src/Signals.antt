-- ===== src/Signals.antt =====
-- sfera-mail-mt/ipc/signal/ansi/ansi.cpp: a child that handles signals, and the parent that sends them.
mod Tests
use technosphere.Common.{
  ℕ, zero, suc, ◌+◌, ◌≤◌, ◌<◌, ◌≡◌, refl, ap, sym, ◌∙◌, inl, inr, Bool, true, false, Option, none,
  some, List, [], ◌∷◌, ◌++◌, if◌then◌else◌, Bool-cases, arith,
}

-- SIGUSR1, SIGUSR2 and SIGTERM, the signals that the child sets an action for.
pub data Signal : Type 0 where
  usr1 usr2 term : Signal

-- SIG_DFL, SIG_IGN and signal_handler.
pub data Action : Type 0 where
  default ignored handled : Action

-- What the child has set for each signal, and the signals that it has handled, the newest last.
pub record Child : Type 0 where
  pub on_usr1 : Action
  pub on_usr2 : Action
  pub on_term : Action
  pub log : List Signal

unfoldable pub set_signal : Signal → Action → Child → Child
set_signal Signal.usr1 h c = record c { on_usr1 = h }
set_signal Signal.usr2 h c = record c { on_usr2 = h }
set_signal Signal.term h c = record c { on_term = h }

unfoldable pub action_of : Signal → Child → Action
action_of Signal.usr1 c = c.on_usr1
action_of Signal.usr2 c = c.on_usr2
action_of Signal.term c = c.on_term

unfoldable pub signal_handler : Signal → Child → Child
unfolding set_signal
signal_handler Signal.usr1 c =
    set_signal Signal.usr1 Action.handled (record c { log = c.log ++ (Signal.usr1 ∷ []) })
signal_handler Signal.usr2 c =
    set_signal Signal.usr2 Action.default (record c { log = c.log ++ (Signal.usr2 ∷ []) })
signal_handler Signal.term c = record c { log = c.log ++ (Signal.term ∷ []) }

-- A new process, and what `child` sets before it waits.
abbrev pub new_process : Child
new_process = record {
  on_usr1 = Action.default;
  on_usr2 = Action.default;
  on_term = Action.default;
  log = [];
}

unfoldable pub child : Child
unfolding set_signal
child =
    set_signal Signal.term Action.ignored
      (set_signal Signal.usr2 Action.handled (set_signal Signal.usr1 Action.handled new_process))

-- The kernel delivers a signal; none if the process ends. On some systems `signal` is for one delivery
-- only, and the action is the default one when the handler is called: then `once` is true.
unfoldable pub deliver : Bool → Signal → Child → Option Child
unfolding action_of signal_handler set_signal
deliver once s c = elim (action_of s c) [
  | default ↦ none
  | ignored ↦ some c
  | handled ↦ some (signal_handler s (if once then set_signal s Action.default c else c))
]

-- Signals that come one after the other, as the parent sends them, a second apart: each finds the handler
-- of the one before at its end.
unfoldable pub deliver_all : Bool → List Signal → Child → Option Child
unfolding deliver
deliver_all once [] c = some c
deliver_all once (s ∷ ss) c = elim (deliver once s c) [
  | none ↦ none
  | some c' ↦ deliver_all once ss c'
]

-- The signals that `parent` sends.
abbrev pub parent : List Signal
parent =
    Signal.term ∷ Signal.term ∷ Signal.term ∷ Signal.usr1 ∷ Signal.usr1 ∷ Signal.usr1 ∷ Signal.usr2
    ∷ Signal.usr2 ∷ Signal.usr2 ∷ []

-- How many of the signals are SIGUSR2, and those that are not SIGTERM.
unfoldable pub count_usr2 : List Signal → ℕ
count_usr2 [] = 0
count_usr2 (Signal.usr2 ∷ ss) = suc (count_usr2 ss)
count_usr2 (Signal.usr1 ∷ ss) = count_usr2 ss
count_usr2 (Signal.term ∷ ss) = count_usr2 ss

unfoldable pub not_term : List Signal → List Signal
not_term [] = []
not_term (Signal.usr1 ∷ ss) = Signal.usr1 ∷ not_term ss
not_term (Signal.usr2 ∷ ss) = Signal.usr2 ∷ not_term ss
not_term (Signal.term ∷ ss) = not_term ss

-- The child with its three actions set, that for SIGUSR2 as long as this has not come.
abbrev pub waiting : Action → List Signal → Child
waiting h seen = record {
  on_usr1 = Action.handled;
  on_usr2 = h;
  on_term = Action.ignored;
  log = seen;
}

append_one : (xs ys : List Signal) (s : Signal) → (xs ++ (s ∷ [])) ++ ys ≡ xs ++ (s ∷ ys)
append_one [] ys s = refl
append_one (x ∷ xs) ys s = ap (λ (t : List Signal). x ∷ t) (append_one xs ys s)

append-nil : (xs : List Signal) → xs ++ [] ≡ xs
append-nil [] = refl
append-nil (x ∷ xs) = ap (λ (t : List Signal). x ∷ t) (append-nil xs)

-- a handled SIGUSR1
deliver_all-usr1 :
    (once : Bool) (h : Action) (ss seen : List Signal)
    → deliver_all once (Signal.usr1 ∷ ss) (waiting h seen)
      ≡ deliver_all once ss (waiting h (seen ++ (Signal.usr1 ∷ [])))
unfolding deliver_all
deliver_all-usr1 true h ss seen = refl
deliver_all-usr1 false h ss seen = refl

deliver_all-usr2 :
    (once : Bool) (ss seen : List Signal)
    → deliver_all once (Signal.usr2 ∷ ss) (waiting Action.handled seen)
      ≡ deliver_all once ss (waiting Action.default (seen ++ (Signal.usr2 ∷ [])))
unfolding deliver_all
deliver_all-usr2 true ss seen = refl
deliver_all-usr2 false ss seen = refl

seen_after :
    (h : Action) (seen : List Signal) (s : Signal) (rest : List Signal)
    → some (waiting h ((seen ++ (s ∷ [])) ++ rest)) ≡ some (waiting h (seen ++ (s ∷ rest)))
seen_after h seen s rest = ap (λ (t : List Signal). some (waiting h t)) (append_one seen rest s)

-- Behind the first SIGUSR2.
deliver_all-default :
    (once : Bool) (ss seen : List Signal)
    → ((count_usr2 ss ≡ 0)
        → deliver_all once ss (waiting Action.default seen)
          ≡ some (waiting Action.default (seen ++ not_term ss)))
      × ((0 < count_usr2 ss) → deliver_all once ss (waiting Action.default seen) ≡ none)
unfolding deliver_all count_usr2 not_term
deliver_all-default once [] seen = (
  λ e. ap (λ (t : List Signal). some (waiting Action.default t)) (sym (append-nil seen)),
  λ h. absurd (omega arith),
)
deliver_all-default once (Signal.term ∷ ss) seen = deliver_all-default once ss seen
deliver_all-default once (Signal.usr2 ∷ ss) seen = (λ e. absurd (omega (arith, e)), λ h. refl)
deliver_all-default once (Signal.usr1 ∷ ss) seen =
    let run = deliver_all-usr1 once Action.default ss seen in
    let (alive, dead) = deliver_all-default once ss (seen ++ (Signal.usr1 ∷ [])) in
    (
      λ e. run ∙ alive e ∙ seen_after Action.default seen Signal.usr1 (not_term ss),
      λ h. run ∙ dead h,
    )

-- The action for SIGUSR2 after n of them.
abbrev pub action_after : ℕ → Action
action_after zero = Action.handled
action_after (suc n) = Action.default

deliver_all-waiting :
    (once : Bool) (ss seen : List Signal)
    → ((count_usr2 ss < 2)
        → deliver_all once ss (waiting Action.handled seen)
          ≡ some (waiting (action_after (count_usr2 ss)) (seen ++ not_term ss)))
      × ((2 ≤ count_usr2 ss) → deliver_all once ss (waiting Action.handled seen) ≡ none)
unfolding deliver_all count_usr2 not_term
deliver_all-waiting once [] seen = (
  λ e. ap (λ (t : List Signal). some (waiting Action.handled t)) (sym (append-nil seen)),
  λ h. absurd (omega arith),
)
deliver_all-waiting once (Signal.term ∷ ss) seen = deliver_all-waiting once ss seen
deliver_all-waiting once (Signal.usr1 ∷ ss) seen =
    let run = deliver_all-usr1 once Action.handled ss seen in
    let (alive, dead) = deliver_all-waiting once ss (seen ++ (Signal.usr1 ∷ [])) in
    (
      λ e. run ∙ alive e ∙ seen_after (action_after (count_usr2 ss)) seen Signal.usr1 (not_term ss),
      λ h. run ∙ dead h,
    )
deliver_all-waiting once (Signal.usr2 ∷ ss) seen =
    let run = deliver_all-usr2 once ss seen in
    let (alive, dead) = deliver_all-default once ss (seen ++ (Signal.usr2 ∷ [])) in
    (
      λ e.
          run ∙ alive (omega (arith, e)) ∙ seen_after Action.default seen Signal.usr2 (not_term ss),
      λ h. run ∙ dead (omega (arith, h)),
    )

-- For any sequence of SIGUSR1, SIGUSR2 and SIGTERM, each delivered after the handler of the one before
-- has returned, and whether an action is for one delivery only or stays: the child outlives signals of
-- which fewer than two are SIGUSR2, and has then handled all but the SIGTERM, in order; and the second SIGUSR2 ends
-- it.
pub deliver_all-child :
    (once : Bool) (ss : List Signal)
    → ((count_usr2 ss < 2)
        → deliver_all once ss child ≡ some (waiting (action_after (count_usr2 ss)) (not_term ss)))
      × ((2 ≤ count_usr2 ss) → deliver_all once ss child ≡ none)
unfolding child
deliver_all-child once ss = deliver_all-waiting once ss []
