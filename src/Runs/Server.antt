-- ===== src/Runs/Server.antt =====
-- A client of the socket server: a parsed query, its Sync, and a Terminate.
use pglite_go.Base.{
  ℕ, suc, ◌+◌, ◌≡◌, refl, Bool, true, false, none, List, [], ◌∷◌, ◌++◌, ◌==◌, length, arith, codes,
}
use pglite_go.Base.Outcome.{ok}
use pglite_go.Base.Action.{continue, ◌>>◌}
use pglite_go.Wire.Message.{frame}
use pglite_go.Wire.Value.{Floats}
use pglite_go.Wire.Session.{done, read, write, Backend, Conn, exec}
use pglite_go.Wire.Frames.{Message, frames}
use pglite_go.Wire.Server.{send, serve_startup, read_frontend_message}
use pglite_go.Wire.Server.Relay.{on_peer, on_conn, relay}
use pglite_go.Wire.Server.Batches.{
  AllWait, served, read_frontend_message-frame, relay-batch, relay-terminate,
}
use pglite_go.Wire.Server.Handshake.{Returns, serve_startup-Returns}

abbrev whole : Floats
whole = record {
  F = ℕ;
  parse_float = λ t. none;
  float32_from_bits = λ n. n;
  float64_from_bits = λ n. n;
}

-- It reads a message in one go and answers with its length.
abbrev lengths : Backend
lengths = record {
  State = Unit {0};
  call = λ name args s. done (ok 0, s);
  main_loop_once = λ s. read 100 (λ got. write (length got ∷ []) (done ((false, none), s)));
}

abbrev idle : Conn lengths
idle = record { wire = record { out = []; off = 0; inbox = []; tx = 0 }; backend = tt }

-- The fourth write fails.
abbrev fourth : ℕ → Bool
fourth n = n == 3

abbrev parsed : List Message
parsed = (b'P', codes "q") ∷ (b'B', []) ∷ []

parsed_wait : AllWait true fourth parsed
unfolding AllWait
parsed_wait = ((refl, omega arith), ((refl, omega arith), tt))

read_frontend_message-frame_example :
    read_frontend_message true fourth
      (record { incoming = frame b'Q' (codes "abc") ++ codes "rest"; sent = []; writes = 0 })
    ≡ (ok (b'Q', codes "abc"), record { incoming = codes "rest"; sent = []; writes = 0 })
read_frontend_message-frame_example =
    read_frontend_message-frame true fourth b'Q' (codes "abc") (codes "rest") [] 0 (omega arith)

relay-batch_example :
    relay true fourth lengths whole 9
      (length parsed + suc 4)
      []
      (served true fourth lengths whole (frames parsed ++ (frame b'S' [] ++ [])) [] 0 idle)
    ≡ continue
        (on_conn true fourth lengths whole
          (exec lengths 9 (frames parsed ++ frame b'S' []))
          (served true fourth lengths whole [] [] 0 idle))
        (λ out.
          on_peer true fourth lengths whole (send true fourth out)
          >> relay true fourth lengths whole 9 4 [])
relay-batch_example =
    relay-batch true fourth lengths whole 9 4 parsed b'S' [] [] [] 0 idle parsed_wait refl
      (omega arith) (omega arith)

relay-terminate_example :
    relay true fourth lengths whole 9 (length parsed + suc 4) [] (
      served true fourth lengths whole (frames parsed ++ (frame b'X' [] ++ codes "more")) [] 0 idle)
    ≡ (ok tt, served true fourth lengths whole (codes "more") [] 0 idle)
relay-terminate_example =
    relay-terminate true fourth lengths whole 9 4 parsed [] (codes "more") [] 0 idle parsed_wait
      (omega arith)

serve_startup-Returns_example :
    Returns
      (λ u q. Unit {0})
      (serve_startup true fourth 9
        (record { incoming = 0 ∷ 0 ∷ 0 ∷ 8 ∷ 4 ∷ 210 ∷ 22 ∷ 47 ∷ []; sent = []; writes = 0 }))
serve_startup-Returns_example =
    serve_startup-Returns true fourth 9
      (record { incoming = 0 ∷ 0 ∷ 0 ∷ 8 ∷ 4 ∷ 210 ∷ 22 ∷ 47 ∷ []; sent = []; writes = 0 })
      (omega arith)
