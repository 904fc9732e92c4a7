-- ===== src/Wire/Server/Relay.antt =====
-- The relay of the socket server, serveconn.go, over the one connection to the backend.
use pglite_go.Base.{
  ℕ, zero, suc, Bool, true, false, List, [], ◌∷◌, ◌++◌, ◌==◌, if◌then◌else◌, codes,
}
use pglite_go.Base.Outcome.{Error, Outcome, ok, err, panic, stuck, end_of_file, closed}
use pglite_go.Base.Action.{Act, ◌>>=◌, ◌>>◌}
use pglite_go.Wire.Message.{frame}
use pglite_go.Wire.Value.{Value, text, Floats}
use pglite_go.Wire.Response.{Rows}
use pglite_go.Wire.Session.{Backend, Conn, exec, simple_query}
use pglite_go.Wire.Server.{
  Peer, send, serve_startup, read_frontend_message, accumulates, startup_response, fixed_params,
}

module _ (cut : Bool) (fails : ℕ → Bool) (b : Backend) (fl : Floats) where
  -- The client and the one connection to the backend.
  pub record Served : Type 0 where
    pub peer : Peer
    pub conn : Conn b

  abbrev pub back_peer : {A : Type 0} → Outcome A × Peer → Served → Outcome A × Served
  back_peer (o, p) s = (o, record s { peer = p })

  abbrev pub on_peer : {A : Type 0} → Act Peer A → Act Served A
  on_peer a s = back_peer (a s.peer) s

  abbrev pub back_conn : {A : Type 0} → Outcome A × Conn b → Served → Outcome A × Served
  back_conn (o, c) s = (o, record s { conn = c })

  abbrev pub on_conn : {A : Type 0} → Act (Conn b) A → Act Served A
  on_conn a s = back_conn (a s.conn) s

  -- The relay: `batch` holds the messages that no terminator has followed.
  abbrev pub relay_step :
      ℕ → (List ℕ → Act Served (Unit {0})) → List ℕ → ℕ × List ℕ → Act Served (Unit {0})
  relay_step pumps next batch m s =
      if m.0 == b'X'
      then (ok tt, s)
      else if accumulates cut fails m.0
      then next (batch ++ frame m.0 m.1) s
      else (do
        out ← on_conn (exec b pumps (batch ++ frame m.0 m.1))
        on_peer (send cut fails out)
        next [])
          s

  abbrev pub is_eof : Error → Bool
  is_eof end_of_file = true
  is_eof _ = false

  -- Ends quietly where the client is gone.
  abbrev pub unless_gone :
      {A : Type 0} → Outcome A × Served → (A → Act Served (Unit {0})) → Outcome (Unit {0}) × Served
  unless_gone (ok a, s) next = next a s
  unless_gone (err e, s) next = if is_eof e then (ok tt, s) else (err e, s)
  unless_gone (panic, s) next = (panic, s)
  unless_gone (stuck, s) next = (stuck, s)

  -- `pumps` is the fuel of `exec`.
  unfoldable pub relay : ℕ → ℕ → List ℕ → Act Served (Unit {0})
  relay pumps zero batch s = (stuck, s)
  relay pumps (suc fuel) batch s =
      let next = relay pumps fuel in
      unless_gone (on_peer (read_frontend_message cut fails) s) (relay_step pumps next batch)

  abbrev pub or_default : List ℕ → List ℕ
  or_default [] = codes "18.0"
  or_default (c ∷ t) = c ∷ t

  abbrev pub version_text : Value (fl.F) → List ℕ
  version_text (text t) = or_default t
  version_text _ = codes "18.0"

  -- One row of one column, else the default.
  abbrev pub version_of : List (List (Value (fl.F))) → List ℕ
  version_of ((x ∷ []) ∷ []) = version_text x
  version_of _ = codes "18.0"

  abbrev pub params_of : Outcome (Rows fl) × Conn b → Outcome (List (List ℕ × List ℕ)) × Conn b
  params_of (ok r, c) = (ok (fixed_params cut fails (version_of r.rows)), c)
  params_of (err e, c) = (ok (fixed_params cut fails (codes "18.0")), c)
  params_of (panic, c) = (panic, c)
  params_of (stuck, c) = (stuck, c)

  -- startupParams
  unfoldable pub startup_params : ℕ → Act (Conn b) (List (List ℕ × List ℕ))
  startup_params pumps c = params_of (simple_query b fl pumps (codes "SHOW server_version") c)

  unfoldable pub send_startup_response : ℕ → Act Served (Unit {0})
  send_startup_response pumps = do
    params ← on_conn (startup_params pumps)
    on_peer (send cut fails (startup_response cut fails params))

  -- `gone` tells that the database is closed.
  abbrev pub respond : ℕ → ℕ → Bool → Act Served (Unit {0})
  respond pumps fuel gone s =
      if gone
      then (err closed, s)
      else unless_gone (send_startup_response pumps s) (λ u. relay pumps fuel [])

  unfoldable pub serve_conn : ℕ → ℕ → Bool → Act Served (Unit {0})
  serve_conn pumps fuel gone s =
      unless_gone (on_peer (serve_startup cut fails fuel) s) (λ u. respond pumps fuel gone)
