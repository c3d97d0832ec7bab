-- ===== src/Cache/Request/Answers.antt =====
-- What a client is answered: always something, and after a `set` the value.
use technosphere.Cache.HashTable.Lookup.{IsKey, lookup, place}
use technosphere.Cache.HashTable.Map.{IsValue, get-set}
use technosphere.Cache.HashTable.Runs.{IsSetUp, IsIdleState, written, get-lookup, set-place}
use technosphere.Cache.HashTable.Records.{place_of}
use technosphere.Cache.HashTable.{HashTable, set}
use technosphere.Cache.Machine.{
  State, Outcome, done, code_value, Code, no_such_key, invalid_key, invalid_value, no_free_space,
}
use technosphere.Cache.Memory.{padded, read_bytes}
use technosphere.Cache.Request.Extract.{IsWord, IsNumber, IsFirst, NoNewline}
use technosphere.Cache.Request.Protocol.{set_line, get_line, parse_request-get, parse_request-set}
use technosphere.Cache.Request.{
  RequestBase, get_request, set_request, parse_request, perform_base, answer, perform,
}
use technosphere.Cache.Semaphore.{SysV}
use technosphere.Cache.Stream.{digits_value}
use technosphere.Common.Bytes.{Bytes, codes}
use technosphere.Common.{
  ℕ, ◌+◌, ◌^◌, ◌<◌, ◌≡◌, ◌⊎◌, inl, inr, refl, true, some, [], ◌∷◌, ◌++◌, arith, ltb, length,
  Bool-cases, Option-cases,
}

-- An answer is `ok` or `error`, with something behind it.
abbrev pub IsAnswer : Bytes → Type 0
IsAnswer r = ((x : Bytes) × (r ≡ codes "ok " ++ x)) ⊎ ((x : Bytes) × (r ≡ codes "error " ++ x))

-- A parsed request has an operation.
parsed :
    (s : Bytes)
    → ((parse_request s).parse_error ≡ true)
      ⊎ ((r : RequestBase) × ((parse_request s).request ≡ some r))
unfolding parse_request
parsed s = elim (Option-cases (parse_request s).request) [
  | inr p ↦ inr p
  | inl e ↦ inl (ground (arith, e))
]

-- What the handler of `perform` makes of a code.
abbrev pub error_line : Code → Bytes
error_line c = codes "error " ++ (48 + code_value c) ∷ []

module _ (sys : SysV) (t : HashTable) (up : IsSetUp t) where
  open sys use {Sems}

  abbrev Answers : State Sems → Outcome Sems Bytes → Type 0
  Answers s o =
      (r : Bytes) × (s' : State Sems) × (o ≡ done r s') × IsIdleState sys t up s' × IsAnswer r

  -- An answer that was sent in state s with the semaphores u.
  sent :
      (s : State Sems) (u : Sems) (o : Outcome Sems Bytes) (r : Bytes)
      → o ≡ done r (record s { sems = u })
      → IsIdleState sys t up (record s { sems = u })
      → IsAnswer r
      → Answers s o
  sent s u o r e v a = (r, record s { sems = u }, e, v, a)

  perform_get-Answers :
      (key : Bytes) (s : State Sems)
      → IsIdleState sys t up s
      → Answers s (answer sys (perform_base sys t (get_request key) s))
  unfolding perform_base answer
  perform_get-Answers key s idle =
      let (u, run, v) = get-lookup sys t up key s idle in
      elim (Bool-cases (ltb t.key_size (length key + 1))) [
        | inl e ↦ sent s u _ (error_line invalid_key) (ground (arith, run)) v (inr (_, refl))
        | inr e ↦ elim (Option-cases (lookup t s.mem key t.n_records 0)) [
          | inl f ↦ sent s u _ (error_line no_such_key) (ground (arith, run)) v (inr (_, refl))
          | inr (k, f) ↦
              let value = read_bytes s.mem (place_of t k + t.key_size) t.value_size in
              sent s u _ (codes "ok " ++ (key ++ (codes " " ++ value))) (ground (arith, run)) v
                (inl (_, refl))
        ]
      ]

  perform_set-Answers :
      (key value : Bytes) (ttl : ℕ) (s : State Sems)
      → IsIdleState sys t up s
      → Answers s (answer sys (perform_base sys t (set_request key value ttl) s))
  unfolding perform_base answer
  perform_set-Answers key value ttl s idle =
      let (u, run, v) = set-place sys t up key value ttl s idle in
      elim (Bool-cases (ltb t.key_size (length key + 1))) [
        | inl e ↦ sent s u _ (error_line invalid_key) (ground (arith, run)) v (inr (_, refl))
        | inr e ↦ elim (Bool-cases (ltb t.value_size (length value + 1))) [
          | inl e' ↦ sent s u _ (error_line invalid_value) (ground (arith, run)) v (inr (_, refl))
          | inr e' ↦ elim (Option-cases (place t s.mem key t.n_records 0)) [
            | inl f ↦ sent s u _ (error_line no_free_space) (ground (arith, run)) v (inr (_, refl))
            | inr (k, f) ↦ (
              codes "ok " ++ (key ++ (codes " " ++ value)),
              record { mem = written t key value ttl s.mem k; sems = u },
              ground (arith, run),
              v,
              inl (_, refl),
            )
          ]
        ]
      ]

  perform_base-Answers :
      (r : RequestBase) (s : State Sems)
      → IsIdleState sys t up s
      → Answers s (answer sys (perform_base sys t r s))
  perform_base-Answers (get_request key) s idle = perform_get-Answers key s idle
  perform_base-Answers (set_request key value ttl) s idle = perform_set-Answers key value ttl s idle

  -- In a table that is set up and with every lock free, whatever bytes a client sends, it is
  -- answered, with `ok …` or with `error …`; no exception escapes, no lock is waited for, and
  -- every lock is given back.
  pub perform_answers :
      (line : Bytes) (s : State Sems)
      → IsIdleState sys t up s
      → (r : Bytes) × (s' : State Sems) × (perform sys t (parse_request line) s ≡ done r s')
        × IsIdleState sys t up s'
        × IsAnswer r
  unfolding perform
  perform_answers line s idle = elim (Bool-cases (parse_request line).parse_error) [
    | inl e ↦
        (codes "error parse_error", s, ground (arith, e), idle, inr (codes "parse_error", refl))
    | inr e ↦ elim (parsed line) [
      | inl f ↦ absurd (ground (arith, e, f))
      | inr (r, f) ↦
          let (x, s', run, v, a) = perform_base-Answers r s idle in
          (x, s', ground (arith, e, f, run), v, a)
    ]
  ]

  module _ (ds key value tail tail' : Bytes) (s s' : State Sems) (idle : IsIdleState sys t up s)
      (is_word : IsWord key) (number : IsNumber ds) (small : digits_value 0 ds < 2 ^ 32)
      (first : IsFirst value) (one_line : NoNewline value) (good : IsKey t key)
      (fits : IsValue t value) (ran : set sys t key value (digits_value 0 ds) s ≡ done tt s') where
    -- A `set` line, ended by CR and LF, whose `set` returns is answered with the key and the value, and a
    -- `get` line that follows it with the value padded with NULs, whatever stands behind the two lines in the
    -- buffer. Provided that the key is a word, the TTL a number below 2^32, the value one line
    -- that begins with no white space, the key and the value C strings that fit, the table set up
    -- and every lock free.
    pub perform-set-get :
        (perform sys t (parse_request (set_line ds key value tail)) s
          ≡ done (codes "ok " ++ (key ++ (codes " " ++ value))) s')
        × ((u : Sems) × (perform sys t (parse_request (get_line key tail')) s'
              ≡ done
                  (codes "ok " ++ (key ++ (codes " " ++ padded value t.value_size)))
                  (record s' { sems = u })))
    unfolding perform perform_base answer
    perform-set-get =
        let (u, run, v) = get-set sys t up key value (digits_value 0 ds) s s' idle good fits ran in
        (
          rw (parse_request-set key tail is_word ds value number small first one_line)
              (ground (arith, ran)),
          (u, rw (parse_request-get key tail' is_word) (ground (arith, run))),
        )
