-- ===== src/Lib.antt =====
-- zapd, the local ZAP router, as a library: the envelope and its control bodies, node ids, the
-- router's registry and relay, the browser door with its pairing, and a node's seat on the router.
--
-- A node opens a connection to the router and says HELLO as `<kind>/<name>`. The router stamps its
-- own host label into the id, registers the connection under it, answers WELCOME and tells the other
-- nodes; from then on it forwards each frame by its `to`, with the sender's registered id as `from`.
-- A browser comes in through the door: it passes a check of its headers, proves that it holds the
-- pairing key (the Blink extension need not), says HELLO as a browser, and is then piped into the
-- router's `handle` like any other connection, except that it may not originate calls and may not
-- take over an id. A node calls one other node at a time and takes the answer by its `from`.
--
-- The files and the code that they model:
--
--   Frame, Frame/*    src/frame.rs: `Frame`, `encode`, `read`, `decode`, `body` (Frame.Envelope),
--                     the `Cursor` (Frame.Cursor), and the bodies of HELLO, PROVIDERS and the brand
--                     filter (Frame.Control).
--   Id, Id/*          src/id.rs: `label`, `name_ok`, `stamp`, `kind`.
--   Router, Router/*  src/router.rs: `Registry` as the record `State`, `send_to`, `broadcast`, `list`,
--                     `route_loop`, and `handle` from the HELLO to the end of the connection.
--                     Router.Halves cuts a round of the loop at the lock of the registry. Router.Tasks
--                     has the connections side by side: where each stands in `handle`, and what it does
--                     at once.
--   Pair, Pair/*      src/pair.rs: the code and its parser, `hex` and `unhex`, `proof` and `verify`,
--                     `free_port`, and `load`, `reset`, `read` and `publish` (Pair.Keep).
--   Door, Door/*      src/door.rs: `check`, `auth`, `prove`, `browser_hello`, `originates` (Door), the
--                     admission (Door.Admit), the loop of `admit` (Door.Relay), and the gate of
--                     `serve` (Door.Gate).
--   Node, Node/*      src/node.rs: `Inner`, `settle`, the frames of `session`, `ask`, the end of a
--                     connection and the backoff of `join`, and `dial`; `session` over its stream
--                     (Node.Session), and what `call` and `nodes` ask and return (Node.Asks),
--                     over the bytes of each message (Node.Wire).
--   Os, Os/*          src/os/unix.rs: `private` and `private_dir`, over the metadata of a path (Os);
--                     `lock`, `holder`, `Listener`, `dial` and `hostname` (Os.Unix), with what POSIX
--                     says of `fcntl` on one file (Os.Unix.Records) and of the door's path
--                     (Os.Unix.Door). src/os/windows.rs (Os.Windows): `address`, `mine`, the text of the
--                     security descriptor, `private`, `private_dir`, `announce`, `holder`; the calls of
--                     the security interface and of the lock (Os.Windows.Calls), the pipes and `dial`
--                     (Os.Windows.Pipes).
--   Cli, Cli/*        src/main.rs: the choice of the command, `ls`, the output and the exit code.
--   Python, Python/*  python/src/lib.rs: the exceptions, the roles, `pair`, `call`, `nodes`.
--   Elect, Elect/*    src/elect.rs: `lock_file` and `holder`; the processes that run the loop of `embed`
--                     over one lock (Elect.Processes), on Unix (Elect.Processes.Unix) and on Windows
--                     (Elect.Processes.Recorded); the retries of `browser_door`; `runtime_dir`,
--                     `private_runtime` and `serve` (Elect.Serve).
--   */Suite           the unit tests in src/frame.rs, src/id.rs, src/pair.rs and src/door.rs.
--   Text, Io, Map     what the code uses of the standard library: strings as lists of UTF-8 bytes,
--                     `from_utf8_lossy`, `split`, `strip_prefix`, `trim`, decimal numbers, errors by
--                     kind and message, and the hash map as an association list.
--   Prelude           the shared notation, tests and list lemmas.
--
-- Conventions. A byte is a natural number below 256 where a lemma needs it, and a field of a fixed
-- width is cut with `%` where the code casts. A fallible function returns `Result`. Shared state is
-- passed explicitly; `ask` takes its two locks, of the outstanding call and of the connection, in one
-- step. A channel of the router is a number: `queue` holds what was sent on it,
-- `receiving` says whether its receiver lives, and `evicted` whether it was told to go. In a node, a
-- call is a number and `replies` holds the answer that its channel was given.
--
-- The router's connections, the gate of the door and the processes that stand for election are step
-- relations: a state reached is one after any sequence of steps of any of them, so that each order of
-- the steps is covered.
--
-- Bounds and fuel. `route_loop` and the loop of `session` take fuel; every frame takes at least 15
-- bytes off the stream, and they are given one more than the stream has bytes. The decimal digits of a
-- number take fuel above the number. The retries of the browser door recurse on what the attempts
-- meet, which is a list of any length. Everything else recurses on its data. The length prefix is
-- bounded by 64 MiB as in the code; the tokens, which the code counts in 64 bits, are not bounded
-- here; the hash of the pipe's name is cut to 64 bits.
--
-- Parameters. HMAC-SHA256, the answers of the file system, of the security interfaces of Windows and
-- of the WebSocket library, whether a port can be bound, the random draws, the time at which something
-- is ready, and the process ids that the operating system names are arguments of the definitions that
-- use them. The lock of the election is a record of operations and laws, which are what POSIX and
-- Windows document: it has one holder, is granted only while it is free, and is dropped when its
-- holder ends. On Unix that record is filled by `lock` and `holder` over the laws of `fcntl`; the calls
-- of `lock` take fuel, and lock_waits shows that one more than the signals that come is enough.
--
-- Not modelled. The asynchronous runtime: what a task does under one lock, or between two locks or
-- channels, is one step. A hash map's
-- order is the order of insertion. Writes of the transport beyond the queues, logging, the bound on the
-- size of a WebSocket message, the freeing of what the Windows interfaces allocate, and the re-exports and the runtime of src/lib.rs are left out.
pub mod Prelude
pub mod Text
pub mod Io
pub mod Frame
pub mod Id
pub mod Map
pub mod Router
pub mod Pair
pub mod Door
pub mod Node
pub mod Os
pub mod Elect
pub mod Cli
pub mod Python
