-- ===== src/Wire/Session.antt =====
-- `wireConn` of wire.go, and `Query`, `QueryParams` and `Exec` of query.go.
--
-- The WebAssembly backend is not code of this repository's Go files: it is the parameter `Backend`.
-- A call of one of its exports reads and writes through the two callbacks, in any order.
use pglite_go.Base.{
  ℕ, zero, suc, ◌+◌, Bool, true, false, Option, none, some, List, [], ◌∷◌, ◌++◌, leb, ◌==◌, ◌||◌,
  ◌&&◌, if◌then◌else◌, length, take, drop, codes,
}
use pglite_go.Base.Outcome.{Outcome, ok, err, panic, stuck, server, call_failed, ◌>>=◌ as ◌>>=ᵒ◌}
use pglite_go.Base.Action.{Act, ◌>>=◌}
use pglite_go.Wire.Message.{
  query_message, parse_message, bind_message, result_formats, describe_statement_message,
  describe_portal_message, execute_message, sync_message,
}
use pglite_go.Wire.Response.{Rows, parse, describe_result_oids}
use pglite_go.Wire.Value.{Floats}

-- What a call of an export does: callbacks, and then its result.
pub data Run (A : Type 0) : Type 0 where
  done : A → Run A
  read : ℕ → (List ℕ → Run A) → Run A
  write : List ℕ → Run A → Run A

-- The staged input, what is read of it, the captured output and the transaction status.
pub record WireConn : Type 0 where
  pub out : List ℕ
  pub off : ℕ
  pub inbox : List ℕ
  pub tx : ℕ

-- The callback `read` for a destination of `size` bytes, and the callback `write`.
unfoldable pub on_read : ℕ → WireConn → List ℕ × WireConn
on_read size w =
    let got = take size (drop w.off w.out) in (got, record w { off = w.off + length got })

unfoldable pub on_write : List ℕ → WireConn → WireConn
on_write src w = record w { inbox = w.inbox ++ src }

unfoldable pub run : {A : Type 0} → Run A → WireConn → A × WireConn
run (done a) w = (a, w)
run (read n k) w = run (k (on_read n w).0) (on_read n w).1
run (write src k) w = run k (on_write src w)

-- An error value is its text.
pub record Backend : Type 1 where
  pub State : Type 0
  -- CallExport by name with its int32 arguments; its result is an int32 where one is used.
  pub call : List ℕ → List ℕ → State → Run (Outcome ℕ × State)
  -- CallExportRaw("PostgresMainLoopOnce"): whether it ended in a longjmp, and its error.
  pub main_loop_once : State → Run ((Bool × Option (List ℕ)) × State)

unfoldable pub has_prefix : List ℕ → List ℕ → Bool
has_prefix [] s = true
has_prefix (x ∷ xs) [] = false
has_prefix (x ∷ xs) (y ∷ ys) = x == y && has_prefix xs ys

-- strings.Contains
unfoldable pub contains : List ℕ → List ℕ → Bool
contains [] sub = has_prefix sub []
contains (c ∷ s) sub = has_prefix sub (c ∷ s) || contains s sub

unfoldable pub is_query_error_exit : List ℕ → Bool
is_query_error_exit e = contains e (codes "exit(100)") || contains e (codes "proc_exit(100)")

module _ (b : Backend) where
  open b use {State, call, main_loop_once}

  -- The connection with the backend behind it.
  pub record Conn : Type 0 where
    pub wire : WireConn
    pub backend : State

  unfoldable pub call_export : List ℕ → List ℕ → Conn → Outcome ℕ × Conn
  call_export name args c =
      let r = run (call name args c.backend) c.wire in
      (r.0.0, record { wire = r.1; backend = r.0.1 })

  unfoldable pub loop_once : Conn → (Bool × Option (List ℕ)) × Conn
  loop_once c =
      let r = run (main_loop_once c.backend) c.wire in
      (r.0.0, record { wire = r.1; backend = r.0.1 })

  -- How a round of the pump ends: the call returned, it unwound, or it failed.
  pub data Turn : Type 0 where
    returned : Turn
    unwound : Turn
    failed : List ℕ → Turn

  abbrev pub turn_of : Bool × Option (List ℕ) → Turn
  turn_of (longjmp, none) = if longjmp then unwound else returned
  turn_of (longjmp, some e) =
      if is_query_error_exit e then unwound else if longjmp then unwound else failed e

  -- Setting the three buffers at the start of `exec`.
  abbrev pub stage : List ℕ → Conn → Conn
  stage msg c = record c { wire = record (c.wire) { out = msg; off = 0; inbox = [] } }

  abbrev pub captured : Act Conn (List ℕ)
  captured c = (ok c.wire.inbox, c)

  -- A StartupMessage.
  unfoldable pub exec_startup : Act Conn (List ℕ)
  exec_startup = do
    port ← call_export (codes "pgl_getMyProcPort") []
    u ← call_export (codes "ProcessStartupPacket") (port ∷ 1 ∷ 1 ∷ [])
    captured

  -- Whether the input is consumed and no data is buffered.
  unfoldable pub drained : List ℕ → Act Conn Bool
  drained msg c =
      if leb (length msg) c.wire.off
      then (do rem ← call_export (codes "pq_buffer_remaining_data") []; λ c'. (ok (rem == 0), c')) c
      else (ok false, c)

  abbrev pub after_turn : Turn → Act Conn (Unit {0})
  after_turn returned c = (ok tt, c)
  after_turn unwound c =
      (do rem ← call_export (codes "PostgresMainLongJmp") []; λ c'. (ok tt, c')) c
  after_turn (failed e) c = (err (call_failed e), c)

  unfoldable pub turn : Act Conn (Unit {0})
  turn c = let r = loop_once c in after_turn (turn_of r.0) r.1

  -- The pump: the fuel bounds the calls of PostgresMainLoopOnce, which the source does not.
  unfoldable pub pump : ℕ → List ℕ → Act Conn (Unit {0})
  pump zero msg c = (stuck, c)
  pump (suc fuel) msg c =
      let rest = pump fuel msg in
      (do over ← drained msg; if over then (λ c'. (ok tt, c')) else (do u ← turn; rest)) c

  -- A call whose result is dropped.
  unfoldable pub call_ignored : List ℕ → Act Conn (Unit {0})
  call_ignored name c = (ok tt, (call_export name [] c).1)

  unfoldable pub exec_pumped : ℕ → List ℕ → Act Conn (List ℕ)
  exec_pumped fuel msg = do
    u ← pump fuel msg
    v ← call_ignored (codes "PostgresSendReadyForQueryIfNecessary")
    w ← call_ignored (codes "pgl_pq_flush")
    captured

  abbrev pub is_startup : List ℕ → Bool
  is_startup [] = false
  is_startup (b ∷ msg) = b == 0

  unfoldable pub exec : ℕ → List ℕ → Act Conn (List ℕ)
  exec fuel msg c =
      if is_startup msg then exec_startup (stage msg c) else exec_pumped fuel msg (stage msg c)

  module _ (fl : Floats) where
    abbrev pub parsed_rows : Outcome (Outcome (Rows fl) × ℕ) → Conn → Outcome (Rows fl) × Conn
    parsed_rows (ok (r, tx)) c = (r, record c { wire = record (c.wire) { tx = tx } })
    parsed_rows (err e) c = (err e, c)
    parsed_rows panic c = (panic, c)
    parsed_rows stuck c = (stuck, c)

    -- w.parse(out)
    unfoldable pub parse_output : List ℕ → Act Conn (Rows fl)
    parse_output out c = parsed_rows (parse fl c.wire.tx out) c

    unfoldable pub simple_query : ℕ → List ℕ → Act Conn (Rows fl)
    simple_query fuel sql = do out ← exec fuel (query_message sql); parse_output out

    abbrev pub first_pump : List ℕ → List ℕ
    first_pump sql = parse_message sql ++ (describe_statement_message ++ sync_message)

    abbrev pub second_pump : List (List ℕ) → List Bool → List ℕ → List ℕ
    second_pump params is_null oids =
        bind_message params is_null (result_formats oids)
        ++ (describe_portal_message ++ (execute_message ++ sync_message))

    abbrev pub described : List ℕ → Act Conn (List ℕ)
    described d1 c = (
      describe_result_oids d1 >>=ᵒ λ r. (if length r.1 == 0 then ok r.0 else err (server r.1)),
      c,
    )

    unfoldable pub extended_query : ℕ → List ℕ → List (List ℕ) → List Bool → Act Conn (Rows fl)
    extended_query fuel sql params is_null = do
      d1 ← exec fuel (first_pump sql)
      oids ← described d1
      d2 ← exec fuel (second_pump params is_null oids)
      parse_output d2

    -- `DB.Query`, `DB.QueryParams` and `DB.Exec`, which hold the lock of the one connection.
    unfoldable pub query : ℕ → List ℕ → Act Conn (Rows fl)
    query fuel sql = simple_query fuel sql

    unfoldable pub query_params : ℕ → List ℕ → List (List ℕ) → List Bool → Act Conn (Rows fl)
    query_params fuel sql params is_null = extended_query fuel sql params is_null

    unfoldable pub db_exec : ℕ → List ℕ → Act Conn (List ℕ)
    db_exec fuel sql = do r ← query fuel sql; λ c. (ok r.command, c)
