-- ===== src/Wire/Transfer.antt =====
-- What the two callbacks of wire.go hand over during a call and during the pump of `exec`.
use pglite_go.Base.{
  ℕ, zero, suc, ◌+◌, ◌≤◌, ◌≡◌, refl, ap, sym, ◌∙◌, subst, Bool, true, false, List, [], ◌∷◌, ◌++◌,
  length, take, drop, arith, leb, ◌==◌, if◌then◌else◌, append_assoc, append-nil, length-drop,
  length-append, Bool-cases, inl, inr, take-append-drop, drop-append, codes,
}
use native.Mathlib.Nat.{zero-add, suc-add}
use pglite_go.Base.Outcome.{Outcome, ok, err, panic, stuck}
use pglite_go.Base.Action.{Act, continue, ◌>>=◌, continue-eq-ok}
use pglite_go.Wire.Session.{
  Run, done, read, write, WireConn, on_read, on_write, run, Backend, Conn, call_export, loop_once,
  Turn, turn_of, after_turn, returned, unwound, failed, drained, turn, pump,
}

-- What a call gets through its reads, and what it writes.
pub received : {A : Type 0} → Run A → WireConn → List ℕ
received (done a) w = []
received (read n k) w = (on_read n w).0 ++ received (k (on_read n w).0) (on_read n w).1
received (write src k) w = received k (on_write src w)

pub sent : {A : Type 0} → Run A → WireConn → List ℕ
sent (done a) w = []
sent (read n k) w = sent (k (on_read n w).0) (on_read n w).1
sent (write src k) w = src ++ sent k (on_write src w)

drop_nil : (b : ℕ) → drop {A = ℕ} b [] ≡ []
drop_nil zero = refl
drop_nil (suc b) = refl

drop-add : (a b : ℕ) (xs : List ℕ) → drop (a + b) xs ≡ drop b (drop a xs)
drop-add zero b xs = rw (zero-add) refl
drop-add (suc a) b [] = drop_nil (suc a + b) ∙ sym (drop_nil b)
drop-add (suc a) b (x ∷ xs) = rw (suc-add) (drop-add a b xs)

taken : (n : ℕ) (xs : List ℕ) → drop (length (take n xs)) xs ≡ drop n xs
taken n xs =
    subst (λ ys. drop (length (take n xs)) ys ≡ drop n xs) (take-append-drop n xs)
      (drop-append (take n xs) (drop n xs))

read_splits :
    (n : ℕ) (w : WireConn)
    → drop w.off w.out ≡ (on_read n w).0 ++ drop (on_read n w).1.off (on_read n w).1.out
unfolding on_read
read_splits n w =
    rw (drop-add w.off (length (take n (drop w.off w.out))) w.out, taken n (drop w.off w.out))
      (sym (take-append-drop n (drop w.off w.out)))

on_read_fields :
    (n : ℕ) (w : WireConn)
    → ((on_read n w).1.off ≡ w.off + length (on_read n w).0)
      × ((on_read n w).1.out ≡ w.out)
      × ((on_read n w).1.inbox ≡ w.inbox)
      × ((on_read n w).1.tx ≡ w.tx)
unfolding on_read
on_read_fields n w = (refl, refl, refl, refl)

on_write_fields :
    (src : List ℕ) (w : WireConn)
    → ((on_write src w).off ≡ w.off)
      × ((on_write src w).out ≡ w.out)
      × ((on_write src w).inbox ≡ w.inbox ++ src)
      × ((on_write src w).tx ≡ w.tx)
unfolding on_write
on_write_fields src w = (refl, refl, refl, refl)

-- Whatever reads and writes a call of the backend makes, it takes the next bytes of the staged
-- message, each once, moves the position by their number, appends what it writes to the output in
-- order, and changes neither the message nor the transaction status.
pub run_transfers :
    {A : Type 0} (r : Run A) (w : WireConn)
    → (drop w.off w.out ≡ received r w ++ drop (run r w).1.off (run r w).1.out)
      × ((run r w).1.off ≡ w.off + length (received r w))
      × ((run r w).1.out ≡ w.out)
      × ((run r w).1.inbox ≡ w.inbox ++ sent r w)
      × ((run r w).1.tx ≡ w.tx)
unfolding run received sent
run_transfers (done a) w = (refl, omega arith, refl, sym (append-nil w.inbox), refl)
run_transfers (read n k) w =
    let got = (on_read n w).0 in
    let w' = (on_read n w).1 in
    let (d, o, u, i, t) = run_transfers (k got) w' in
    let (fo, fu, fi, ft) = on_read_fields n w in
    (
      read_splits n w ∙ ap (λ x. got ++ x) d ∙ sym (append_assoc got (received (k got) w') _),
      omega (arith, o, fo, length-append got (received (k got) w')),
      u ∙ fu,
      i ∙ ap (λ x. x ++ sent (k got) w') fi,
      t ∙ ft,
    )
run_transfers (write src k) w =
    let w' = on_write src w in
    let (d, o, u, i, t) = run_transfers k w' in
    let (fo, fu, fi, ft) = on_write_fields src w in
    (
      cc (d, fo, fu),
      omega (arith, o, fo),
      u ∙ fu,
      i ∙ ap (λ x. x ++ sent k w') fi ∙ append_assoc w.inbox src (sent k w'),
      t ∙ ft,
    )

-- A staged message with a read position inside it.
abbrev pub Staged : List ℕ → WireConn → Type 0
Staged msg w = (w.out ≡ msg) × (w.off ≤ length msg)

received-le :
    (xs ys zs : List ℕ) (n : ℕ) → drop n xs ≡ ys ++ zs → n ≤ length xs → n + length ys ≤ length xs
received-le xs ys zs n e h = omega (arith, ap length e, length-append ys zs, length-drop n xs)

run-Staged :
    {A : Type 0} (r : Run A) (w : WireConn) (msg : List ℕ) → Staged msg w → Staged msg (run r w).1
run-Staged r w msg (e, h) =
    let (d, o, u, i, t) = run_transfers r w in
    (u ∙ e, omega (arith, o, received-le w.out (received r w) _ w.off d (rw e h), ap length e))

module _ (b : Backend) (msg : List ℕ) where
  call-Staged :
      (name args : List ℕ) (c : Conn b)
      → Staged msg c.wire
      → Staged msg (call_export b name args c).1.wire
  unfolding call_export
  call-Staged name args c h = run-Staged (b.call name args c.backend) c.wire msg h

  loop_once-Staged : (c : Conn b) → Staged msg c.wire → Staged msg (loop_once b c).1.wire
  unfolding loop_once
  loop_once-Staged c h = run-Staged (b.main_loop_once c.backend) c.wire msg h

  -- The second part of a chain runs from the state that the first left.
  continue-Staged :
      {A B : Type 0} (r : Outcome A × Conn b) (f : A → Act (Conn b) B)
      → Staged msg r.1.wire
      → ((a : A) (c : Conn b) → Staged msg c.wire → Staged msg (f a c).1.wire)
      → Staged msg (continue r f).1.wire
  continue-Staged (ok a, c) f h k = k a c h
  continue-Staged (err e, c) f h k = h
  continue-Staged (panic, c) f h k = h
  continue-Staged (stuck, c) f h k = h

  after_turn-Staged :
      (t : Turn b) (c : Conn b) → Staged msg c.wire → Staged msg (after_turn b t c).1.wire
  after_turn-Staged returned c h = h
  after_turn-Staged unwound c h =
      continue-Staged (call_export b (codes "PostgresMainLongJmp") [] c) _
        (call-Staged (codes "PostgresMainLongJmp") [] c h) (λ a c' k. k)
  after_turn-Staged (failed e) c h = h

  turn-Staged : (c : Conn b) → Staged msg c.wire → Staged msg (turn b c).1.wire
  unfolding turn
  turn-Staged c h =
      after_turn-Staged (turn_of b (loop_once b c).0) (loop_once b c).1 (loop_once-Staged c h)

  drained-Staged : (c : Conn b) → Staged msg c.wire → Staged msg (drained b msg c).1.wire
  unfolding drained
  drained-Staged c h = elim (Bool-cases (leb (length msg) c.wire.off)) [
    | inl e ↦ rw e (
        continue-Staged (call_export b (codes "pq_buffer_remaining_data") [] c) _
          (call-Staged (codes "pq_buffer_remaining_data") [] c h) (λ a c' k. k))
    | inr e ↦ rw e h
  ]

  call_off : (name args : List ℕ) (c : Conn b) → c.wire.off ≤ (call_export b name args c).1.wire.off
  unfolding call_export
  call_off name args c = omega (arith, (run_transfers (b.call name args c.backend) c.wire).1)

  -- The pump stops by its test only where nothing of the message is left.
  drained-true :
      (c c' : Conn b)
      → Staged msg c.wire
      → drained b msg c ≡ (ok true, c')
      → c'.wire.off ≡ length msg
  unfolding drained
  drained-true c c' h e = elim (Bool-cases (leb (length msg) c.wire.off)) [
    | inl yes_read ↦ all_read (ground arith) (rw yes_read at e)
    | inr not_read ↦ absurd (cc (rw not_read at e))
  ]
    where
      asked : Outcome ℕ × Conn b
      asked = call_export b (codes "pq_buffer_remaining_data") [] c

      all_read :
          length msg ≤ c.wire.off
          → continue {A = ℕ} {B = Bool} asked (λ rem c'. (ok (rem == 0), c')) ≡ (ok true, c')
          → c'.wire.off ≡ length msg
      all_read le e' =
          let (n, s, eq, res) = continue-eq-ok asked (λ rem c'. (ok (rem == 0), c')) e' in
          let (u, o) = call-Staged (codes "pq_buffer_remaining_data") [] c h in
          omega (
            arith,
            o,
            call_off (codes "pq_buffer_remaining_data") [] c,
            ap (λ (r : Outcome ℕ × Conn b). r.1.wire.off) eq,
            ap (λ (r : Outcome Bool × Conn b). r.1.wire.off) res,
          )

  -- When the pump returns from a staged message, the backend has read the whole message, and the
  -- message is still the staged one.
  pub pump_consumes :
      (fuel : ℕ) (c c' : Conn b)
      → Staged msg c.wire
      → pump b fuel msg c ≡ (ok tt, c')
      → (c'.wire.out ≡ msg) × (c'.wire.off ≡ length msg)
  unfolding pump
  pump_consumes zero c c' h e = absurd (cc e)
  pump_consumes (suc fuel) c c' h e =
      let (over, s, eq, res) = continue-eq-ok (drained b msg c) _ e in
      let hs = subst (λ (r : Outcome Bool × Conn b). Staged msg r.1.wire) eq (drained-Staged c h) in
      last_step over s eq hs res (λ s' hs' e'. pump_consumes fuel s' c' hs' e')
    where
      ended :
          (s : Conn b)
          → drained b msg c ≡ (ok true, s)
          → Staged msg s.wire
          → s ≡ c'
          → (c'.wire.out ≡ msg) × (c'.wire.off ≡ length msg)
      ended s eq hs same = (
        subst (λ (x : Conn b). x.wire.out ≡ msg) same hs.0,
        subst (λ (x : Conn b). x.wire.off ≡ length msg) same (drained-true c s h eq),
      )

      last_step :
          (over : Bool) (s : Conn b)
          → drained b msg c ≡ (ok over, s)
          → Staged msg s.wire
          → (if over then (λ c'. (ok tt, c')) else (turn b >>= λ u. pump b fuel msg)) s
            ≡ (ok tt, c')
          → ((s' : Conn b)
              → Staged msg s'.wire
              → pump b fuel msg s' ≡ (ok tt, c')
              → (c'.wire.out ≡ msg) × (c'.wire.off ≡ length msg))
          → (c'.wire.out ≡ msg) × (c'.wire.off ≡ length msg)
      last_step true s eq hs res ih = ended s eq hs (ap (λ r. r.1) res)
      last_step false s eq hs res ih =
          let (u, s2, eq2, res2) = continue-eq-ok (turn b s) (λ u. pump b fuel msg) res in
          ih s2 (subst (λ (r : Outcome Unit × Conn b). Staged msg r.1.wire) eq2 (turn-Staged s hs))
            res2
