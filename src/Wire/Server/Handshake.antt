-- ===== src/Wire/Server/Handshake.antt =====
-- The handshake of serveconn.go ends.
use pglite_go.Base.{
  ℕ, zero, suc, ◌+◌, ◌-◌, ◌^◌, ◌<◌, ◌≤◌, ◌≡◌, refl, ap, Bool, Bool-cases, inl, inr, List, [], ◌∷◌,
  length, leb, ltb, ◌==◌, ◌||◌, arith, length-take, length-drop,
}
use pglite_go.Base.Outcome.{Outcome, ok, err, panic, stuck}
use pglite_go.Base.Action.{Act, continue}
use pglite_go.Wire.Bytes.{take_u32}
use pglite_go.Wire.Server.{Peer, read_full, send, first_u32, startup_body, on_code, serve_startup}

-- The call returns, with a value as `P` says or with an error.
abbrev pub Returns : {S A : Type 0} → (A → S → Type 0) → Outcome A × S → Type 0
Returns P (ok a, s) = P a s
Returns P (err e, s) = Unit {0}
Returns P (panic, s) = ⊥
Returns P (stuck, s) = ⊥

Returns-continue :
    {S A B : Type 0} {P : A → S → Type 0} (Q : B → S → Type 0) (r : Outcome A × S) (f : A → Act S B)
    → ((a : A) (s : S) → P a s → Returns Q (f a s))
    → Returns P r
    → Returns Q (continue r f)
Returns-continue Q (ok a, s) f next h = next a s h
Returns-continue Q (err e, s) f next h = tt
Returns-continue Q (panic, s) f next h = absurd h
Returns-continue Q (stuck, s) f next h = absurd h

module _ (cut : Bool) (fails : ℕ → Bool) where
  -- What a read of n bytes gives, and what it leaves.
  abbrev Took : ℕ → Peer → List ℕ → Peer → Type 0
  Took n p bytes q = (length bytes ≡ n) × (length q.incoming + n ≡ length p.incoming)

  read_full-Took : (n : ℕ) (p : Peer) → Returns (Took n p) (read_full cut fails n p)
  unfolding read_full
  read_full-Took n p = elim (Bool-cases (leb n (length p.incoming))) [
    | inr short ↦ rw short tt
    | inl enough ↦ rw enough (
      ground (arith, enough, length-take n p.incoming),
      ground (arith, enough, length-drop n p.incoming),
    )
  ]

  first_u32-Returns :
      (bytes : List ℕ) (p : Peer)
      → 4 ≤ length bytes
      → Returns (λ n q. q ≡ p) (first_u32 cut fails (take_u32 bytes) p)
  first_u32-Returns [] p h = omega (arith, h)
  first_u32-Returns (a ∷ []) p h = omega (arith, h)
  first_u32-Returns (a ∷ b ∷ []) p h = omega (arith, h)
  first_u32-Returns (a ∷ b ∷ c ∷ []) p h = omega (arith, h)
  first_u32-Returns (a ∷ b ∷ c ∷ d ∷ bytes) p h = refl

  startup_body-Returns :
      (n : ℕ) (p : Peer)
      → Returns
          (λ bytes q. (4 ≤ length bytes) × (length q.incoming ≤ length p.incoming))
          (startup_body cut fails n p)
  startup_body-Returns n p = elim (Bool-cases (ltb n 8 || ltb (2 ^ 20) n)) [
    | inl bad ↦ rw bad tt
    | inr good ↦
        let long : 8 ≤ n = ground (arith, good) in
        rw good (Returns-weaken (read_full cut fails (n - 4) p) (read_full-Took (n - 4) p) long)
  ]
    where
      Returns-weaken :
          (r : Outcome (List ℕ) × Peer)
          → Returns (Took (n - 4) p) r
          → 8 ≤ n
          → Returns (λ bytes q. (4 ≤ length bytes) × (length q.incoming ≤ length p.incoming)) r
      Returns-weaken (ok bytes, q) (size, left) long =
          (omega (arith, size, long), omega (arith, left))
      Returns-weaken (err e, q) h long = tt
      Returns-weaken (panic, q) h long = absurd h
      Returns-weaken (stuck, q) h long = absurd h

  send-Returns :
      (bytes : List ℕ) (p : Peer)
      → Returns (λ u q. q.incoming ≡ p.incoming) (send cut fails bytes p)
  unfolding send
  send-Returns bytes p = elim (Bool-cases (fails p.writes)) [ inl f ↦ rw f tt | inr g ↦ rw g refl ]

  abbrev Done : Outcome (Unit {0}) × Peer → Type 0
  Done r = Returns (λ u q. Unit {0}) r

  on_code-Returns :
      (again : Act Peer (Unit {0})) (code : ℕ) (p : Peer)
      → ((q : Peer) → length q.incoming ≤ length p.incoming → Done (again q))
      → Done (on_code cut fails again code p)
  on_code-Returns again code p next = elim (Bool-cases (code == 80877103 || code == 80877104)) [
    | inl ssl ↦
        let all : Done (continue (send cut fails (b'N' ∷ []) p) (λ u. again)) =
          Returns-continue (λ u q. Unit {0}) (send cut fails (b'N' ∷ []) p) (λ u. again)
            (λ u q same. next q (omega (arith, ap length same))) (send-Returns (b'N' ∷ []) p) in
        rw ssl all
    | inr other ↦ elim (Bool-cases (code == 80877102)) [
      | inl cancel ↦ rw (other, cancel) tt
      | inr kept ↦ elim (Bool-cases (code == 196608)) [
        | inl start ↦ rw (other, kept, start) tt
        | inr bad ↦ rw (other, kept, bad) tt
      ]
    ]
  ]

  -- serveStartup returns with nil or an error, and does not panic, on whatever the client sends
  -- and whichever writes fail; more rounds than the client sends bytes are enough.
  pub serve_startup-Returns :
      (fuel : ℕ) (p : Peer)
      → length p.incoming < fuel
      → Returns (λ u q. Unit {0}) (serve_startup cut fails fuel p)
  unfolding serve_startup
  serve_startup-Returns zero p h = omega (arith, h)
  serve_startup-Returns (suc fuel) p h =
      let again = serve_startup cut fails fuel in
      Returns-continue (λ u q. Unit {0}) (read_full cut fails 4 p) _
        (λ len q (size, left).
          Returns-continue (λ u q'. Unit {0}) (first_u32 cut fails (take_u32 len) q) _
            (λ n q' same.
              Returns-continue (λ u r. Unit {0}) (startup_body cut fails n q') _
                (λ body r (long, fewer).
                  Returns-continue (λ u r'. Unit {0}) (first_u32 cut fails (take_u32 body) r)
                    (λ code. on_code cut fails again code)
                    (λ code r' same'. on_code-Returns again code r' (λ t le.
                      serve_startup-Returns fuel t (
                        omega (
                          arith,
                          h,
                          le,
                          left,
                          fewer,
                          ap (λ (x : Peer). length x.incoming) same,
                          ap (λ (x : Peer). length x.incoming) same',
                        ))))
                    (first_u32-Returns body r long))
                (startup_body-Returns n q'))
            (first_u32-Returns len q (omega (arith, size))))
        (read_full-Took 4 p)
