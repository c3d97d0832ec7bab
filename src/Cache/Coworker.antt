-- ===== src/Cache/Coworker.antt =====
-- sphere_prac/p5/Coworker.cpp: the loop of one worker process over the connections that it is
-- handed. A connection is what one `recv` put into the buffer; the loop ends where `recv_fd` fails,
-- at the end of the list.
use technosphere.Cache.HashTable.Runs.{IsSetUp, IsIdleState}
use technosphere.Cache.HashTable.{HashTable}
use technosphere.Cache.Machine.{State, done, M, pure, ◌>>=◌}
use technosphere.Cache.Request.Answers.{IsAnswer, perform_answers}
use technosphere.Cache.Request.{parse_request, perform}
use technosphere.Cache.Semaphore.{SysV}
use technosphere.Common.Bytes.{Bytes, c_str}
use technosphere.Common.{ℕ, ◌≡◌, refl, List, [], ◌∷◌, ◌++◌, arith, length, drop, take, replicate}

-- `recv` into the front of the buffer, of as many bytes as it has: what stood behind them stays.
unfoldable pub receive : Bytes → Bytes → Bytes
receive message buf = let got = take (length buf) message in got ++ drop (length got) buf

module _ (sys : SysV) where
  open sys use {Sems}

  -- one round of the loop: the buffer afterwards, and the bytes sent (with the NUL). The C string is read
  -- on in the memory behind the buffer, `beyond`, if no byte of the buffer is 0.
  unfoldable pub serve : HashTable → Bytes → Bytes → Bytes → M Sems (Bytes × Bytes)
  serve t beyond buf message =
      let buf' = receive message buf in
      perform sys t (parse_request (c_str (buf' ++ beyond))) >>= λ r.
      pure (buf', r ++ (b'\n' ∷ 0 ∷ []))

  unfoldable pub execute_from : HashTable → Bytes → Bytes → List Bytes → M Sems (List Bytes)
  unfolding serve
  execute_from t beyond buf [] = pure []
  execute_from t beyond buf (message ∷ rest) = serve t beyond buf message >>= λ r.
      execute_from t beyond r.0 rest >>= λ sent. pure (r.1 ∷ sent)

  -- `Coworker::execute`, with its buffer of zeros
  unfoldable pub execute : HashTable → Bytes → ℕ → List Bytes → M Sems (List Bytes)
  unfolding execute_from
  execute t beyond max_buf_size = execute_from t beyond (replicate max_buf_size 0)

module _ (sys : SysV) (t : HashTable) (up : IsSetUp t) (beyond : Bytes) where
  open sys use {Sems}

  -- Worker: a message is answered by what its text, the C string from the front of the buffer, does to
  -- the table; then the buffer holds the message, and the next message is answered.
  pub data Answered : Bytes → State Sems → List Bytes → List Bytes → State Sems → Type 0 where
    nobody : {buf : Bytes} {s : State Sems} → Answered buf s [] [] s
    one_more :
        {buf message r : Bytes} {rest sent : List Bytes} {s s₁ s₂ : State Sems}
        → perform sys t (parse_request (c_str (receive message buf ++ beyond))) s ≡ done r s₁
        → IsAnswer r
        → IsIdleState sys t up s₁
        → Answered (receive message buf) s₁ rest sent s₂
        → Answered buf s (message ∷ rest) ((r ++ (b'\n' ∷ 0 ∷ [])) ∷ sent) s₂

  execute_from-Answered :
      (messages : List Bytes) (buf : Bytes) (s : State Sems)
      → IsIdleState sys t up s
      → (sent : List Bytes) × (s' : State Sems) × (execute_from sys t beyond buf messages s
          ≡ done sent s')
        × IsIdleState sys t up s'
        × Answered buf s messages sent s'
  unfolding execute_from
  execute_from-Answered [] buf s idle = ([], s, refl, idle, nobody)
  execute_from-Answered (message ∷ rest) buf s idle =
      let buf' = receive message buf in
      let (r, s₁, run, idle₁, a) = perform_answers sys t up (c_str (buf' ++ beyond)) s idle in
      let (sent, s₂, run₂, idle₂, b) = execute_from-Answered rest buf' s₁ idle₁ in
      ((r ++ (b'\n' ∷ 0 ∷ [])) ∷ sent, s₂, ground (arith, run, run₂), idle₂, one_more run a idle₁ b)

  -- In a table that is set up and with every lock free, a worker answers every message that it is
  -- handed, in order, each with `ok` or `error`, a newline and a NUL, and holds no lock after any of
  -- them: the answer is what the request in the C string from the front of the buffer gives, where the
  -- table is as the message before has left it. The buffer has received the message, cut at its size,
  -- over what earlier messages left there; what stands in memory behind it is arbitrary, and belongs to
  -- the C string if no byte of the buffer is 0.
  pub execute-Answered :
      (max_buf_size : ℕ) (messages : List Bytes) (s : State Sems)
      → IsIdleState sys t up s
      → (sent : List Bytes) × (s' : State Sems) × (execute sys t beyond max_buf_size messages s
          ≡ done sent s')
        × IsIdleState sys t up s'
        × Answered (replicate max_buf_size 0) s messages sent s'
  unfolding execute
  execute-Answered max_buf_size messages = execute_from-Answered messages (replicate max_buf_size 0)
