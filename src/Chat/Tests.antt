-- ===== src/Chat/Tests.antt =====
-- Runs of the theorems on sphere_prac/p2/chatsrv.cpp.
use mathlib.Core.List.{flatten}
use technosphere.Chat.Client.{Client, find_newline, receive}
use technosphere.Chat.Client.Lines.{IsDrained, split_lines, receive_all, receive_all-split_lines}
use technosphere.Chat.Server.{parts, Send, readable, on_event}
use technosphere.Chat.Server.Steps.{AllDrained, on_event-AllDrained}
use technosphere.Chat.Server.Parts.{parts_repeat}
use technosphere.Common.Bytes.{Bytes, codes, c_str}
use technosphere.Common.{
  ℕ, ◌++◌, ◌<◌, ◌≡◌, refl, none, some, List, [], ◌∷◌, arith, length, replicate, length-replicate,
}

abbrev ann : Client
ann = record { fd = 5; eolpos = none; curmsg = codes "he" }

ann-IsDrained : IsDrained ann
unfolding find_newline
ann-IsDrained = record { whole = refl; no_eol = refl }

receive_all-split_lines_example :
    (c' : Client) × (receive_all ann (codes "llo\ny" ∷ codes "ou\nth" ∷ [])
      ≡ some (c', (split_lines (codes "hello\nyou\nth")).0))
    × (c'.curmsg ≡ (split_lines (codes "hello\nyou\nth")).1)
    × IsDrained c'
unfolding flatten
receive_all-split_lines_example =
    receive_all-split_lines (codes "llo\ny" ∷ codes "ou\nth" ∷ []) ann ann-IsDrained
      ((refl, (refl, (refl, (refl, (refl, tt))))), ((refl, (refl, (refl, (refl, (refl, tt))))), tt))

-- The lines of the two examples.
hello_you :
    split_lines (codes "hello\nyou\nth") ≡ (codes "hello\n" ∷ codes "you\n" ∷ [], codes "th")
unfolding split_lines
hello_you = refl

abbrev long_message : Bytes
long_message = replicate 2049 b'a'

parts_repeat_example :
    (ps : List Bytes) × (parts long_message ≡ some ps) × (length long_message < length (flatten ps))
parts_repeat_example = parts_repeat long_message (omega (arith, length-replicate {A = ℕ} 2049 b'a'))

-- Two clients, of which the first completes a line.
abbrev bob : Client
bob = record { fd = 6; eolpos = none; curmsg = [] }

bob-IsDrained : IsDrained bob
unfolding find_newline
bob-IsDrained = record { whole = refl; no_eol = refl }

abbrev all_sent : Send
all_sent fd bytes = some (length bytes)

hello_runs :
    on_event all_sent (readable 5 (codes "y\nth")) (ann ∷ bob ∷ [])
    ≡ some (
      (record { fd = 5; eolpos = none; curmsg = codes "th" }) ∷ bob ∷ [],
      (5, codes "hey\n" ++ (0 ∷ [])) ∷ (6, codes "hey\n" ++ (0 ∷ [])) ∷ [],
    )
unfolding on_event receive find_newline c_str
hello_runs = refl

on_event-AllDrained_example :
    AllDrained ((record { fd = 5; eolpos = none; curmsg = codes "th" }) ∷ bob ∷ [])
on_event-AllDrained_example =
    on_event-AllDrained all_sent (readable 5 (codes "y\nth")) (ann ∷ bob ∷ [])
      ((record { fd = 5; eolpos = none; curmsg = codes "th" }) ∷ bob ∷ [])
      ((5, codes "hey\n" ++ (0 ∷ [])) ∷ (6, codes "hey\n" ++ (0 ∷ [])) ∷ [])
      (ann-IsDrained, (bob-IsDrained, tt)) hello_runs
