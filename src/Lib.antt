-- ===== src/Lib.antt =====
-- Programs of the repository, modelled part by part: a cache server, a merge sort, a chat server,
-- an HTTP server, a shell, an allocator, an example of epoll, six echo servers and an example of
-- signals. They share no code. A path below is a file here, or one of the repository.
--
-- The cache server, sphere_prac/p5. A file mapped into memory holds a table of records of fixed
-- size; workers answer `get` and `set` lines from it, and a garbage collector takes a second from
-- the time of every record in each pass. Each operation locks System V semaphores.
-- - Cache/Memory: addresses and bytes, with memcpy, memset, strncmp and the reads of the code.
-- - Cache/Machine: the state of an operation (memory and semaphores) and its outcomes: it
--   returns, throws one of the codes of HashTable.hpp, or sleeps in semop.
-- - Cache/Semaphore: Semaphore.cpp. The kernel is the record SysV, with the documented behaviour
--   of semop on one semaphore as laws.
-- - Cache/HashTable: HashTable.cpp, function by function. Its children: Layout and Records (the
--   bytes of a record), Locks (what a lock and its release do), Lookup, Writes, Runs and Map (get
--   and set), Aging, Collect, Lifetime, Passes and Expiry (the garbage collector), Setup
--   (main.cpp).
-- - Cache/Exclusion, with Follows: the semaphores as several processes share them, readers and a
--   writer for each number; the calls of all processes are one sequence.
-- - Cache/Stream: what the parser uses of std::istringstream. Cache/Request: Request.cpp, with
--   the parser (Protocol) and the answers (Answers). Cache/Coworker: the loop of Coworker.cpp,
--   with the memory behind its buffer as a parameter.
-- - Cache/Sockets: sock_ops.c, with the answers of the kernel as parameters.
-- Every operation on the table is one uninterrupted run of one process: interleavings are
-- modelled for the calls on the semaphores only, and SEM_UNDO is not modelled, which acts at the
-- end of a process. Loops over the records run n_records times, as in the code, and need no fuel.
-- An `unsigned` is below 2^32, a `size_t` sum is reduced modulo 2^64 in the hash of main.cpp, and
-- the number of a semaphore modulo 2^16.
--
-- The merge sort, sphere_prac/p7/main.cpp: MergeSort/Order (std::inplace_merge) and MergeSort/Sort.
-- The number of threads of a parallel region is a parameter. The fuel is the length of the list and
-- one more, since each half is shorter than the whole.
--
-- The chat server, sphere_prac/p2/chatsrv.cpp: Chat/Client (struct Client and the loop that takes
-- its messages) and Chat/Server (the parts of a message and the handlers of the events, with Parts
-- and Steps). A message ends with a newline, so the length of the buffer and one more is enough
-- fuel for the loop over the messages; a part goes 1024 bytes on, so the length of the message and
-- one more is enough for the loop over the parts.
--
-- The HTTP server, sphere_prac/http_server: Http/Strings (what the parser uses of std::string, and
-- its own trim), Http/Params (parse_params, with Query and Endless: where its loop ends and where
-- not), Http/Request (the parser's state machine and to_http, with Body, Ends and Url),
-- Http/Response, Http/Handler and Http/Server (what main.cpp does with a connection, with Lines and
-- Answer). The streams are those of Cache/Stream, a std::map is the list of its pairs in the order
-- of the keys, and the files are a parameter. The fuel of the parser's loop is the length of the
-- text and five more: every round reads a line or goes on to a later state. The fuel of
-- parse_params is the length of the text and one more, since a loop that ends goes forward in each
-- round.
--
-- The shell, sphere_prac/p4: Shell/Text (what its parsers use of std::string), Shell/Call (what a
-- process gets from Call.cpp), Shell/CallParser (its parser and printer; with Words, Reads, Trim,
-- Written: a line of words, and Ends), Shell/Execute (Instruction::execute, with Chain: a chain
-- of calls without pipes), Shell/InstructionParser (with Rounds, Pieces, Lines: the line of a
-- chain, and Endless) and Shell/Session (main.cpp). The exit code of the n-th process, the
-- descriptors of the n-th pipe and whether `execvp` runs a process are parameters; where it does
-- not, the child goes on as a second shell, and the model ends. The parser of a call has as much
-- fuel as the text has bytes, and one more; that of an instruction gets its fuel as a parameter,
-- since it may not end, and a round for each call is enough for a chain. A line has fewer than
-- 2^31 bytes, so that the `int` indices do not overflow.
--
-- The allocator, sphere_prac/p1 (sfera-mail-mt/practice/1-allocator has the same two files).
-- Alloc/Words: words of eight bytes in memory and the sums of size_t. Alloc/Allocator: the structs
-- at their addresses and allocator.cpp up to free, function by function; Alloc/Moves: realloc and
-- defrag. Place and First (the writes of alloc), Chain (the blocks linked by `next`), Insert and
-- Loop (the search for room), Heap (alloc), Free, Errors, Table and Release (the references and the
-- blocks), Same, Swap, Keeps, Move, Realloc and InPlace (realloc), Defrag, Runs. A heap is the
-- general information with its three bounds in order; its blocks are a chain, upwards, that do not
-- overlap. The fuel of the loops over the blocks is the size of the arena: a chain has fewer
-- blocks, since each takes 24 bytes at least. `stuck` stands for no fuel left, or undefined
-- behaviour.
--
-- The example of epoll, sphere_prac/p2/epoll-example.c (lectures/epoll-example.c is the same file):
-- Epoll/Start (up to the event loop), Epoll/Events (the loop), Epoll/Output and Epoll/Deaf. The
-- answers of the kernel are parameters: those to the calls of the start, and with each event the
-- answers to the calls that it leads to. What is written to descriptor 1 and what is printed to
-- `stdout` are kept apart. The loops follow the answers and need no fuel; `abort` ends a run.
--
-- The echo servers, sfera-mail-mt/network/echo, one for each way to wait: Echo/Calls (what they
-- share: recv, send, set_nonblock and the start), Echo/Contract and Echo/Live (what the log of
-- the calls says of a server), Echo/Descriptors (std::set<int>), and a module for each: Poll
-- (with Set, Contract, Clients, Bounds and Stale), Select (with Rounds), Kqueue, Epoll, Libev and
-- Libevent. A descriptor is an `int`, none for -1. The kernel's answers are parameters: each
-- event comes with those to the calls that it may lead to, how many bytes `send` takes among
-- them. The loops follow the events and need no fuel; what C++ leaves undefined ends a run.
--
-- The example of signals, sfera-mail-mt/ipc/signal/ansi/ansi.cpp: Signals. Whether `signal` sets an
-- action for one delivery or for good is a parameter. A signal that interrupts a handler is not
-- modelled.
--
-- Common holds the helpers that the parts share: comparisons, lists over machine numbers, C
-- strings. The modules called Tests run the theorems on concrete inputs.
--
-- Not modelled: forks, the second shell after a failed `execvp`, logging and the command line,
-- which are calls of the kernel and of libraries; the sockets of the chat and HTTP servers; the
-- proxy and the chat client.
pub mod Common
pub mod Cache
pub mod MergeSort
pub mod Chat
pub mod Http
pub mod Shell
pub mod Alloc
pub mod Epoll
pub mod Echo
pub mod Signals
