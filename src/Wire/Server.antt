-- ===== src/Wire/Server.antt =====
-- The client's side of the socket server, serveconn.go.
--
-- The client is the bytes that it sends and the bytes that it was sent; a read that its bytes do not
-- fill meets the end of the stream. The locks are taken as held.
pub mod Relay
pub mod Batches
pub mod Handshake
use pglite_go.Base.{
  ℕ, zero, suc, ◌+◌, ◌-◌, ◌/◌, ◌%◌, ◌^◌, Bool, true, false, Option, none, some, List, [], ◌∷◌, ◌++◌,
  length, take, drop, leb, ltb, ◌==◌, ◌||◌, if◌then◌else◌, codes,
}
use pglite_go.Base.Outcome.{
  Error, Outcome, ok, err, panic, stuck, read_failed, end_of_file, write_failed, bad_length,
  bad_startup, closed,
}
use pglite_go.Base.Action.{Act, continue, ◌>>=◌, ◌>>◌}
use pglite_go.Wire.Bytes.{append_u32, take_u32}
use pglite_go.Wire.Message.{frame}
use pglite_go.Wire.Value.{Value}
use pglite_go.Wire.Response.{Rows}
use pglite_go.Wire.Session.{Backend, Conn, exec, simple_query}

pub record Peer : Type 0 where
  pub incoming : List ℕ
  pub sent : List ℕ
  pub writes : ℕ

-- The parts of an ErrorResponse.
abbrev pub error_field : ℕ → List ℕ → List ℕ
error_field code text = code ∷ (text ++ (0 ∷ []))

unfoldable pub error_body : List ℕ → List ℕ → List ℕ → List ℕ
error_body severity code message =
    error_field b'S' severity ++ (error_field b'C' code ++ (error_field b'M' message ++ (0 ∷ [])))

-- fmt's %08x of a uint32.
abbrev pub hex_digit : ℕ → ℕ
hex_digit n = if ltb n 10 then b'0' + n else b'a' + (n - 10)

unfoldable pub hex_text : ℕ → ℕ → List ℕ
hex_text zero n = []
hex_text (suc k) n = hex_digit (n / 16 ^ k % 16) ∷ hex_text k n

-- `cut`: the stream ends in an error that is no end of file. `fails`: which calls of Write fail.
module _ (cut : Bool) (fails : ℕ → Bool) where
  -- io.ReadFull
  unfoldable pub read_full : ℕ → Act Peer (List ℕ)
  read_full n p =
      if leb n (length p.incoming)
      then (ok (take n p.incoming), record p { incoming = drop n p.incoming })
      else (err (if cut then read_failed else end_of_file), record p { incoming = [] })

  -- conn.Write
  unfoldable pub send : List ℕ → Act Peer (Unit {0})
  send bytes p =
      if fails p.writes
      then (err write_failed, record p { writes = suc p.writes })
      else (ok tt, record p { sent = p.sent ++ bytes; writes = suc p.writes })

  -- binary.BigEndian.Uint32
  abbrev pub first_u32 : Outcome (ℕ × List ℕ) → Act Peer ℕ
  first_u32 (ok r) p = (ok r.0, p)
  first_u32 (err e) p = (err e, p)
  first_u32 panic p = (panic, p)
  first_u32 stuck p = (stuck, p)

  abbrev pub startup_body : ℕ → Act Peer (List ℕ)
  startup_body n p =
      if ltb n 8 || ltb (2 ^ 20) n then (err (bad_length n), p) else read_full (n - 4) p

  abbrev pub unsupported : ℕ → Act Peer (Unit {0})
  unsupported code p = (
    err (bad_startup code),
    (send
        (frame b'E' (
          error_body (codes "FATAL") (codes "0A000")
            (codes "unsupported protocol/request code 0x" ++ hex_text 8 code)))
        p).1,
  )

  -- What a packet's code asks for; `again` is the next round.
  abbrev pub on_code : Act Peer (Unit {0}) → ℕ → Act Peer (Unit {0})
  on_code again code p =
      if code == 80877103 || code == 80877104
      then (send (b'N' ∷ []) >> again) p
      else if code == 80877102
      then (err end_of_file, p)
      else if code == 196608
      then (ok tt, p)
      else unsupported code p

  -- serveStartup: each round reads at least 8 bytes.
  unfoldable pub serve_startup : ℕ → Act Peer (Unit {0})
  serve_startup zero p = (stuck, p)
  serve_startup (suc fuel) p =
      let again = serve_startup fuel in
      (do
        len ← read_full 4
        n ← first_u32 (take_u32 len)
        body ← startup_body n
        code ← first_u32 (take_u32 body)
        on_code again code)
        p

  abbrev pub message_payload : ℕ → ℕ → Act Peer (ℕ × List ℕ)
  message_payload typ n p =
      if ltb n 4 || ltb (2 ^ 30) n
      then (err (bad_length n), p)
      else (do payload ← read_full (n - 4); λ q. (ok (typ, payload), q)) p

  abbrev pub message_of : List ℕ → Act Peer (ℕ × List ℕ)
  message_of [] p = (panic, p)
  message_of (typ ∷ len) p = (do n ← first_u32 (take_u32 len); message_payload typ n) p

  unfoldable pub read_frontend_message : Act Peer (ℕ × List ℕ)
  read_frontend_message = do hdr ← read_full 5; message_of hdr

  -- The types of the messages that wait for a terminator.
  abbrev pub accumulates : ℕ → Bool
  accumulates typ = typ == b'P' || typ == b'B' || typ == b'D' || typ == b'E' || typ == b'C'

  abbrev pub parameter_status : List ℕ × List ℕ → List ℕ
  parameter_status kv = frame b'S' (kv.0 ++ (0 ∷ (kv.1 ++ (0 ∷ []))))

  unfoldable pub parameter_statuses : List (List ℕ × List ℕ) → List ℕ
  parameter_statuses [] = []
  parameter_statuses (kv ∷ kvs) = parameter_status kv ++ parameter_statuses kvs

  unfoldable pub startup_response : List (List ℕ × List ℕ) → List ℕ
  startup_response params =
      frame b'R' (append_u32 [] 0)
      ++ (parameter_statuses params
          ++ (frame b'K' (append_u32 (append_u32 [] 1) 1) ++ frame b'Z' (b'I' ∷ [])))

  abbrev pub fixed_params : List ℕ → List (List ℕ × List ℕ)
  fixed_params version =
      (codes "server_version", version)
      ∷ (codes "server_encoding", codes "UTF8")
      ∷ (codes "client_encoding", codes "UTF8")
      ∷ (codes "DateStyle", codes "ISO, MDY")
      ∷ (codes "TimeZone", codes "UTC")
      ∷ (codes "IntervalStyle", codes "postgres")
      ∷ (codes "integer_datetimes", codes "on")
      ∷ (codes "standard_conforming_strings", codes "on")
      ∷ (codes "is_superuser", codes "on")
      ∷ (codes "session_authorization", codes "postgres")
      ∷ (codes "application_name", [])
      ∷ []
