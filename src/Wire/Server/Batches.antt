-- ===== src/Wire/Server/Batches.antt =====
-- What the relay of serveconn.go hands to the backend, and that the handshake ends.
use pglite_go.Base.{
  ℕ, suc, ◌+◌, ◌-◌, ◌/◌, ◌%◌, ◌^◌, ◌<◌, ◌≤◌, ◌≡◌, ◌≢◌, refl, ◌∙◌, ap, subst, Bool, true, false,
  Bool-cases, inl, inr, List, [], ◌∷◌, ◌++◌, length, leb, ltb, ◌==◌, arith, ==_iff, append-nil,
  append_assoc, length-append, take-append, drop-append,
}
use pglite_go.Base.Outcome.{ok}
use pglite_go.Base.Action.{continue, ◌>>◌}
use pglite_go.Wire.Message.{frame}
use pglite_go.Wire.Value.{Floats}
use pglite_go.Wire.Session.{Backend, Conn, exec}
use pglite_go.Wire.Frames.{Message, frames, bytes_of_u32}
use pglite_go.Wire.Server.{read_full, send, message_payload, read_frontend_message, accumulates}
use pglite_go.Wire.Server.Relay.{Served, on_peer, on_conn, relay_step, relay}
use native.Mathlib.Nat.{mod-eq_of_lt}

-- A payload that the server takes.
abbrev pub Short : List ℕ → Type 0
Short payload = length payload + 4 ≤ 2 ^ 30

module _ (cut : Bool) (fails : ℕ → Bool) where
  read_full-append :
      (got rest sent : List ℕ) (writes : ℕ)
      → read_full cut fails
          (length got)
          (record { incoming = got ++ rest; sent = sent; writes = writes })
        ≡ (ok got, record { incoming = rest; sent = sent; writes = writes })
  unfolding read_full
  read_full-append got rest sent writes =
      let enough : leb (length got) (length (got ++ rest)) ≡ true =
        ground (arith, length-append got rest) in
      rw (enough, take-append got rest, drop-append got rest) refl

  message_payload-append :
      (typ : ℕ) (payload rest sent : List ℕ) (writes n : ℕ)
      → Short payload
      → n ≡ length payload + 4
      → message_payload cut fails typ n
          (record { incoming = payload ++ rest; sent = sent; writes = writes })
        ≡ (ok (typ, payload), record { incoming = rest; sent = sent; writes = writes })
  message_payload-append typ payload rest sent writes n short size =
      let long : ltb n 4 ≡ false = ground (arith, size) in
      let small : ltb (2 ^ 30) n ≡ false = ground (arith, size, short) in
      let cut_off : n - 4 ≡ length payload = omega (arith, size) in
      rw (long, small, cut_off, read_full-append payload rest sent writes) refl

  -- readFrontendMessage takes off the message that frame built, and leaves what follows it, for a
  -- payload of at most 2^30 - 4 bytes.
  pub read_frontend_message-frame :
      (typ : ℕ) (payload rest sent : List ℕ) (writes : ℕ)
      → Short payload
      → read_frontend_message cut fails
          (record { incoming = frame typ payload ++ rest; sent = sent; writes = writes })
        ≡ (ok (typ, payload), record { incoming = rest; sent = sent; writes = writes })
  unfolding read_frontend_message frame
  read_frontend_message-frame typ payload rest sent writes short =
      let n = (length payload + 4) % 2 ^ 32 in
      let hdr =
        typ ∷ (n / 2 ^ 24 % 256) ∷ (n / 2 ^ 16 % 256) ∷ (n / 2 ^ 8 % 256) ∷ (n % 256) ∷ [] in
      let below : length payload + 4 < 2 ^ 32 = omega (arith, short) in
      rw (read_full-append hdr (payload ++ rest) sent writes) (
        message_payload-append typ payload rest sent writes _ short
          (bytes_of_u32 n (omega (arith, mod-eq_of_lt below, below)) ∙ mod-eq_of_lt below))

-- A message that waits for a terminator.
abbrev pub Waits : Bool → (ℕ → Bool) → Message → Type 0
Waits cut fails m = (accumulates cut fails m.0 ≡ true) × Short m.1

unfoldable pub AllWait : Bool → (ℕ → Bool) → List Message → Type 0
AllWait cut fails [] = Unit {0}
AllWait cut fails (m ∷ ms) = Waits cut fails m × AllWait cut fails ms

module _ (cut : Bool) (fails : ℕ → Bool) (b : Backend) (fl : Floats) where
  -- The server before the rest of a client's bytes.
  abbrev pub served : List ℕ → List ℕ → ℕ → Conn b → Served cut fails b fl
  served incoming sent writes c = record {
    peer = record { incoming = incoming; sent = sent; writes = writes };
    conn = c;
  }

  relay_message :
      (pumps fuel typ : ℕ) (payload rest batch sent : List ℕ) (writes : ℕ) (c : Conn b)
      → Short payload
      → relay cut fails b fl pumps
          (suc fuel)
          batch
          (served (frame typ payload ++ rest) sent writes c)
        ≡ relay_step cut fails b fl pumps
            (relay cut fails b fl pumps fuel)
            batch
            (typ, payload)
            (served rest sent writes c)
  unfolding relay
  relay_message pumps fuel typ payload rest batch sent writes c short =
      rw (read_frontend_message-frame cut fails typ payload rest sent writes short) refl

  not_terminate : (typ : ℕ) → accumulates cut fails typ ≡ true → (typ == b'X') ≡ false
  not_terminate typ waits = elim (Bool-cases (typ == b'X')) [
    | inr other ↦ other
    | inl same ↦
        let as_x : accumulates cut fails b'X' ≡ true =
          subst (λ (t : ℕ). accumulates cut fails t ≡ true) ((==_iff typ b'X').0 same) waits in
        absurd (cc as_x)
  ]

  relay-Waits :
      (pumps fuel : ℕ) (m : Message) (rest batch sent : List ℕ) (writes : ℕ) (c : Conn b)
      → Waits cut fails m
      → relay cut fails b fl pumps (suc fuel) batch (served (frame m.0 m.1 ++ rest) sent writes c)
        ≡ relay cut fails b fl pumps fuel (batch ++ frame m.0 m.1) (served rest sent writes c)
  relay-Waits pumps fuel m rest batch sent writes c (waits, short) =
      relay_message pumps fuel m.0 m.1 rest batch sent writes c short
      ∙ rw (not_terminate m.0 waits, waits) refl

  -- Messages that wait are put into the batch.
  relay-frames :
      (pumps fuel : ℕ) (ms : List Message) (rest batch sent : List ℕ) (writes : ℕ) (c : Conn b)
      → AllWait cut fails ms
      → relay cut fails b fl pumps
          (length ms + fuel)
          batch
          (served (frames ms ++ rest) sent writes c)
        ≡ relay cut fails b fl pumps fuel (batch ++ frames ms) (served rest sent writes c)
  unfolding AllWait
  relay-frames pumps fuel [] rest batch sent writes c h =
      let none_more : length {A = Message} [] + fuel ≡ fuel = omega arith in
      rw (none_more, append-nil batch) refl
  relay-frames pumps fuel (m ∷ ms) rest batch sent writes c (waits, h) =
      let one_more : length (m ∷ ms) + fuel ≡ suc (length ms + fuel) = omega arith in
      ap
        (λ (n : ℕ).
          relay cut fails b fl pumps n batch (served (frames (m ∷ ms) ++ rest) sent writes c))
        one_more
      ∙ ap
          (λ bytes.
            relay cut fails b fl pumps (suc (length ms + fuel)) batch (served bytes sent writes c))
          (append_assoc (frame m.0 m.1) (frames ms) rest)
      ∙ relay-Waits pumps (length ms + fuel) m (frames ms ++ rest) batch sent writes c waits
      ∙ relay-frames pumps fuel ms rest (batch ++ frame m.0 m.1) sent writes c h
      ∙ ap (λ bytes. relay cut fails b fl pumps fuel bytes (served rest sent writes c))
          (append_assoc batch (frame m.0 m.1) (frames ms))

  -- Where a client sends messages that wait for a terminator and then one that does not and is no
  -- Terminate, the relay hands all of them to the backend as one batch, byte for byte as they were
  -- sent, writes the answer to the client, and goes on with an empty batch behind them, for
  -- payloads of at most 2^30 - 4 bytes; a failure of the backend or of the write ends it.
  pub relay-batch :
      (pumps fuel : ℕ) (ms : List Message) (typ : ℕ) (payload rest sent : List ℕ) (writes : ℕ)
      (c : Conn b)
      → AllWait cut fails ms
      → accumulates cut fails typ ≡ false
      → typ ≢ b'X'
      → Short payload
      → relay cut fails b fl pumps
          (length ms + suc fuel)
          []
          (served (frames ms ++ (frame typ payload ++ rest)) sent writes c)
        ≡ continue
            (on_conn cut fails b fl
              (exec b pumps (frames ms ++ frame typ payload))
              (served rest sent writes c))
            (λ out.
              on_peer cut fails b fl (send cut fails out) >> relay cut fails b fl pumps fuel [])
  relay-batch pumps fuel ms typ payload rest sent writes c h ends not_x short =
      let other : (typ == b'X') ≡ false = ground (arith, not_x) in
      relay-frames pumps (suc fuel) ms (frame typ payload ++ rest) [] sent writes c h
      ∙ relay_message pumps fuel typ payload rest (frames ms) sent writes c short
      ∙ rw (other, ends) refl

  -- Where a Terminate follows messages that wait, the relay returns without an error and without a
  -- write, nothing of the batch reaches the backend, and the connection to the backend is as it
  -- was, for payloads of at most 2^30 - 4 bytes.
  pub relay-terminate :
      (pumps fuel : ℕ) (ms : List Message) (payload rest sent : List ℕ) (writes : ℕ) (c : Conn b)
      → AllWait cut fails ms
      → Short payload
      → relay cut fails b fl pumps
          (length ms + suc fuel)
          []
          (served (frames ms ++ (frame b'X' payload ++ rest)) sent writes c)
        ≡ (ok tt, served rest sent writes c)
  relay-terminate pumps fuel ms payload rest sent writes c h short =
      relay-frames pumps (suc fuel) ms (frame b'X' payload ++ rest) [] sent writes c h
      ∙ relay_message pumps fuel b'X' payload rest (frames ms) sent writes c short
