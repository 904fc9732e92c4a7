-- ===== src/Lib.antt =====
-- pglite-go: PostgreSQL compiled to WebAssembly, run inside a Go process.
--
-- The repository has four parts that this library models.
--
-- - internal/wasmpass rewrites the PostgreSQL module before it is translated: `Decode` reads it
--   (wasm.go), `Transform` strips exports, links the imported memory, table and base globals,
--   finds the functions that can end in a longjmp and puts a guard behind their calls (passes.go,
--   with the instruction walker of opcodes.go), and `Encode` writes it again.
-- - emscripten reads the dylink section (dylink.go), writes small modules (wasm.go) and redirects
--   imports (patch.go) for the run-time engines.
-- - wire.go speaks PostgreSQL's protocol with the backend through two callbacks, which hand it the
--   staged message and collect its output; query.go is the API over it, and serveconn.go lets
--   clients of a socket talk to the same backend.
-- - vfs holds the files of the cluster: vfs.go lays a writable tree of nodes (memfs.go) over a
--   read-only layer, with copy-up and whiteouts, and gives out descriptors; file.go has the handles
--   that they read and write through. The read-only layer is the installation, which bundlefs.go
--   serves from one blob and its manifest.
--
-- The files:
--
-- - Base: numbers, lists, Boolean tests, and the outcomes of a Go call: a value, an error value, a
--   run-time panic, or `stuck`, which no Go call is and which stands for fuel that ran out.
-- - Cursor, Leb: the type `cur` and the LEB128 functions of internal/wasmpass/wasm.go. A slice
--   keeps the bytes up to its capacity, since Go lets it be cut again up to there.
-- - Wasm: the types of wasm.go (Model), `Decode` (Decode), `Encode` (Encode), and the
--   theorems about the two (RoundTrip).
-- - Pass: `walkInstr` and `funcCalls` (Walk), `Config` and `StripExports` (Config), `Prelink`
--   (Prelink), `mayLongjmpSet` (Reach), `Instrument` and `Transform` (Instrument).
-- - Wire: byte order and text functions (Bytes), the message builders (Message), the value decoders
--   (Value), the response parsers (Response), `wireConn` with its pump, and the queries (Session);
--   serveconn.go (Server, with the relay in Server.Relay). Params has the Bind message as a server
--   reads it, and Reply a response as data, and what it says, apart from its decoder.
-- - Emscripten: emscripten/wasm.go (Codec), patch.go (Slice, Patch), dylink.go (Dylink).
-- - Vfs: the handles of vfs/file.go (File, Content); path functions (Path); the nodes and `memFS`
--   of vfs/memfs.go (Memory); of vfs/vfs.go the lookups, copy-up and whiteouts (Overlay), the state
--   `FS` (System), the calls on paths (Paths) and on descriptors (Descriptors). Tree has the proofs
--   about the nodes, Table those about the descriptor table, Visible, Unlinked, Moved and Shared those
--   about what the calls leave to be seen.
-- - Bundle: bundlefs.go, from the parsed manifest on (its lookups and handles in Handles).
-- - Runs: concrete inputs for the theorems.
--
-- Bytes are numbers below 256, uintN and int32 values are bit patterns below 2 ^ N, written with
-- `% 2 ^ N` where the code can wrap; an int64 that is compared or printed is a `ℤ`. Go strings and
-- byte slices are lists of bytes.
--
-- Fuel: the loops over a byte slice have its length, or one more, as fuel, since each round takes a
-- byte; putS32 has 5 rounds for 32 bits and encodeLEB128S 10 for 64; the work list of
-- mayLongjmpSet has one round for each function and each of its first items. A lookup has 41 levels
-- of fuel, as `eval` of vfs.go goes down to depth 40. The pump of `exec` has no bound in the source,
-- so its fuel is an argument. A round of the handshake or of the relay of serveconn.go reads at
-- least 5 bytes of the client, so as many rounds as the client sends bytes, and one more, are enough.
--
-- Parameters: the WebAssembly backend (`Backend`, whose exports read and write through the
-- callbacks), the conversions of floating-point numbers (`Floats`), the order in which Go lists
-- the keys of a map (`order`, of which `ListsSet` says that it lists the keys and no others), how a
-- client's stream ends and which writes to it fail (`cut`, `fails`), and
-- the read-only layer of the file system (`Lower`, the functions of io/fs on it; it may be nil),
-- and the manifest of the bundle as its JSON is read.
--
-- Not modelled: the engines and their ports, system calls and WASI, the persistence of the file
-- system, the database/sql driver, assets, memory mapping, times of
-- modification, the mutexes of the file system and of the database, and the texts of Go's own errors.
pub mod Base
pub mod Cursor
pub mod Leb
pub mod Wasm
pub mod Pass
pub mod Wire
pub mod Vfs
pub mod Emscripten
pub mod Bundle
pub mod Runs
