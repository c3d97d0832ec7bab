-- ===== src/Chat/Server/Steps.antt =====
-- What the handlers of the events keep.
use mathlib.Core.Option
use mathlib.Core.Path.{subst}
use technosphere.Chat.Client.Lines.{IsDrained, receive-split_lines}
use technosphere.Chat.Client.{Client, new_client, find_newline, receive}
use technosphere.Chat.Server.{
  Send, Sent, Event, hang_up, connect, broken, readable, on_event, after_receive, drop_client,
  receive_at, send_messages, size_t_result, welcome,
}
use technosphere.Common.Bytes.{Bytes}
use technosphere.Common.{
  ℕ, ◌≡◌, refl, sym, ◌∙◌, Option, none, some, List, [], ◌∷◌, ◌++◌, ◌==◌, arith, ltb, length,
  Bool-cases, Option-cases, inl, inr,
}

-- Every client's buffer holds no newline.
abbrev pub AllDrained : List Client → Type 0
AllDrained [] = Unit
AllDrained (c ∷ cs) = IsDrained c × AllDrained cs

module _ {A B : Type 0} where
  map-some :
      (f : A → B) (o : Option A) (b : B)
      → Option.map f o ≡ some b
      → (a : A) × (o ≡ some a) × (f a ≡ b)
  map-some f none b h = cc
  map-some f (some a) b h = (a, refl, cc h)

drop_client-AllDrained :
    (fd : ℕ) (cs l : List Client) → drop_client fd cs ≡ some l → AllDrained cs → AllDrained l
unfolding drop_client
drop_client-AllDrained fd [] l h d = cc
drop_client-AllDrained fd (c ∷ cs) l h d = elim (Bool-cases (c.fd == fd)) [
  | inl e ↦ let same : cs ≡ l = ground (arith, h, e) in subst AllDrained same d.1
  | inr e ↦
      let (a, run, same) =
        map-some (λ (l : List Client). c ∷ l) (drop_client fd cs) l (rw e at h) in
      subst AllDrained same (d.0, drop_client-AllDrained fd cs a run d.1)
]

append-AllDrained :
    (cs : List Client) (c : Client) → AllDrained cs → IsDrained c → AllDrained (cs ++ (c ∷ []))
append-AllDrained [] c d e = (e, tt)
append-AllDrained (x ∷ cs) c d e = (d.0, append-AllDrained cs c d.1 e)

new_client-IsDrained : (fd : ℕ) → IsDrained (new_client fd)
unfolding new_client find_newline
new_client-IsDrained fd = record { whole = refl; no_eol = refl }

abbrev IfDrained : Option (Client × List Bytes) → Type 0
IfDrained none = Unit
IfDrained (some r) = IsDrained r.0

receive-IsDrained :
    (c : Client) (bytes : Bytes) (r : Client × List Bytes)
    → IsDrained c
    → receive c bytes ≡ some r
    → IsDrained r.0
receive-IsDrained c bytes r d h =
    let (c', run, _, _, drained) = receive-split_lines c bytes d in
    subst IfDrained (sym run ∙ h) drained

receive_at-AllDrained :
    (fd : ℕ) (bytes : Bytes) (cs : List Client) (r : List Client × List Bytes)
    → receive_at fd bytes cs ≡ some r
    → AllDrained cs
    → AllDrained r.0
unfolding receive_at
receive_at-AllDrained fd bytes [] r h d = cc
receive_at-AllDrained fd bytes (c ∷ cs) r h d = elim (Bool-cases (c.fd == fd)) [
  | inl e ↦
      let (a, run, same) =
        map-some (λ (r : Client × List Bytes). (r.0 ∷ cs, r.1)) (receive c bytes) r (rw e at h) in
      subst (λ (r : List Client × List Bytes). AllDrained r.0) same
        (receive-IsDrained c bytes a d.0 run, d.1)
  | inr e ↦
      let (a, run, same) =
        map-some (λ (r : List Client × List Bytes). (c ∷ r.0, r.1)) (receive_at fd bytes cs) r
          (rw e at h) in
      subst (λ (r : List Client × List Bytes). AllDrained r.0) same
        (d.0, receive_at-AllDrained fd bytes cs a run d.1)
]

-- Every event that returns keeps the invariant that no client's buffer holds a newline.
pub on_event-AllDrained :
    (send : Send) (e : Event) (cs cs' : List Client) (sent : Sent)
    → AllDrained cs
    → on_event send e cs ≡ some (cs', sent)
    → AllDrained cs'
unfolding on_event after_receive
on_event-AllDrained send (hang_up fd) cs cs' sent d h =
    let (l, run, same) =
      map-some (λ (l : List Client). (l, [])) (drop_client fd cs) (cs', sent) h in
    subst (λ (r : List Client × Sent). AllDrained r.0) same (drop_client-AllDrained fd cs l run d)
on_event-AllDrained send (broken fd) cs cs' sent d h =
    let (l, run, same) =
      map-some (λ (l : List Client). (l, [])) (drop_client fd cs) (cs', sent) h in
    subst (λ (r : List Client × Sent). AllDrained r.0) same (drop_client-AllDrained fd cs l run d)
on_event-AllDrained send (connect fd) cs cs' sent d h =
    let all = cs ++ (new_client fd ∷ []) in
    let full = append-AllDrained cs (new_client fd) d (new_client-IsDrained fd) in
    let bytes = welcome ++ (0 ∷ []) in
    elim (Bool-cases (ltb (size_t_result (send fd bytes)) (length bytes))) [
      | inl e ↦
          let (l, run, same) =
            map-some (λ (l : List Client). (l, [])) (drop_client fd all) (cs', sent) (rw e at h) in
          subst (λ (r : List Client × Sent). AllDrained r.0) same
            (drop_client-AllDrained fd all l run full)
      | inr e ↦ let same : all ≡ cs' = cc (rw e at h) in subst AllDrained same full
    ]
on_event-AllDrained send (readable fd bytes) cs cs' sent d h =
    elim (Option-cases (receive_at fd bytes cs)) [
      | inl e ↦
          let lost : ◌≡◌ {A = Option (List Client × Sent)} none (some (cs', sent)) = rw e at h in cc
      | inr (r, e) ↦
          let (l, run, same) =
            map-some (λ (l : Sent). (r.0, l)) (send_messages send r.0 r.1) (cs', sent)
              (rw e at h) in
          subst (λ (q : List Client × Sent). AllDrained q.0) same
            (receive_at-AllDrained fd bytes cs r e d)
    ]
