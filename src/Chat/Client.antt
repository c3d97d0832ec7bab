-- ===== src/Chat/Client.antt =====
-- sphere_prac/p2/chatsrv.cpp: `struct Client`, the buffer in which the server gathers the lines of
-- one connection.
pub mod Lines
use mathlib.Core.Option
use technosphere.Common.Bytes.{Bytes, c_str}
use technosphere.Common.{
  ℕ, zero, suc, ◌+◌, Bool, true, false, Option, none, some, List, [], ◌∷◌, ◌++◌, ◌==◌,
  if◌then◌else◌, take, drop, length,
}

-- `eolpos` is `none` for `npos`.
pub record Client : Type 0 where
  pub fd : ℕ
  pub eolpos : Option ℕ
  pub curmsg : Bytes

-- `s.find_first_of('\n', i)`
unfoldable pub find_newline : Bytes → ℕ → Option ℕ
find_newline [] i = none
find_newline (c ∷ s) zero = if c == b'\n' then some 0 else Option.map suc (find_newline s 0)
find_newline (c ∷ s) (suc i) = Option.map suc (find_newline s i)

-- `eolpos + 1`, which is 0 for `npos`
abbrev pub behind : Option ℕ → ℕ
behind none = 0
behind (some p) = suc p

unfoldable pub new_client : ℕ → Client
new_client fd = record { fd = fd; eolpos = none; curmsg = [] }

-- `Client::append`
unfoldable pub append : Client → Bytes → Client
append c str =
    let msg = c.curmsg ++ str in
    record c { curmsg = msg; eolpos = find_newline msg (behind c.eolpos) }

unfoldable pub get_current_msg_at : Option ℕ → Bytes → Bytes
get_current_msg_at none msg = []
get_current_msg_at (some p) msg = take (suc p) msg

-- `Client::get_current_msg`
unfoldable pub get_current_msg : Client → Bytes
unfolding get_current_msg_at
get_current_msg c = get_current_msg_at c.eolpos c.curmsg

unfoldable pub flush_msg_at : Option ℕ → Client → Client × Bytes
flush_msg_at none c = (c, [])
flush_msg_at (some p) c =
    let rest = drop (suc p) c.curmsg in
    (record c { curmsg = rest; eolpos = find_newline rest 0 }, take (suc p) c.curmsg)

-- `Client::flush_msg`
unfoldable pub flush_msg : Client → Client × Bytes
unfolding flush_msg_at
flush_msg c = flush_msg_at c.eolpos c

abbrev pub is_some {ℓ} : {A : Type ℓ} → Option A → Bool
is_some none = false
is_some (some a) = true

-- `Client::new_msg_is_ready`
unfoldable pub new_msg_is_ready : Client → Bool
new_msg_is_ready c = is_some c.eolpos

-- The loop `while (curclient->new_msg_is_ready())` with the messages that it takes; `none` if the
-- fuel runs out.
unfoldable pub take_messages : ℕ → Client → Option (Client × List Bytes)
unfolding new_msg_is_ready flush_msg
take_messages zero c = none
take_messages (suc fuel) c =
    let (c', msg) = flush_msg c in
    let rest = take_messages fuel c' in
    if new_msg_is_ready c
    then Option.map (λ (r : Client × List Bytes). (r.0, msg ∷ r.1)) rest
    else some (c, [])

-- What the server does with the bytes of one `recv`: it appends the C string, so that what stands behind
-- a NUL is lost. Each message is a line, so the length of the buffer bounds their number.
unfoldable pub receive : Client → Bytes → Option (Client × List Bytes)
unfolding take_messages append
receive c str = let c' = append c (c_str str) in take_messages (length c'.curmsg + 1) c'
