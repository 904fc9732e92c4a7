-- ===== src/Pass/Instrument/Weave.antt =====
-- The places of the guard in a body that `Instrument` of internal/wasmpass/passes.go rewrites.
use pglite_go.Base.{◌⊎◌, ◌↔◌, Option, none, some, ◌==◌}
use pglite_go.Pass.Reach.{elem}
use pglite_go.Base.{
  ℕ, zero, suc, ◌+◌, ◌-◌, ◌≤◌, ◌≡◌, refl, sym, ◌∙◌, ap, subst, Bool, true, false, Bool-cases, inl,
  inr, List, [], ◌∷◌, ◌++◌, length, All, append_assoc, append-nil, length-append, take-append,
  drop-append, if◌then◌else◌, ◌||◌, leb, arith,
}
use pglite_go.Base.Outcome.{ok, ◌>>=◌, >>=-eq-ok}
use pglite_go.Cursor.{Cur, input, eof}
use pglite_go.Pass.Walk.{Call, walk_instr, calls_loop, func_calls}
use pglite_go.Pass.Instrument.{may_jump, after_loop, after_calls, insert_at, insert_all}
use pglite_go.Pass.Instrument.Walked.{Cuts-walk_instr}

-- An instruction's bytes, and whether the guard goes behind it.
abbrev pub Piece : Type 0
Piece = List ℕ × Bool

abbrev pub bytes_of : List Piece → List ℕ
bytes_of [] = []
bytes_of ((bs, b) ∷ ps) = bs ++ bytes_of ps

-- The body with the guard in its places.
abbrev pub guarded : List ℕ → List Piece → List ℕ
guarded guard [] = []
guarded guard ((bs, b) ∷ ps) = bs ++ ((if b then guard else []) ++ guarded guard ps)

-- A `call_indirect`, or a `call` of the throw or of a function of the set.
abbrev pub Jumps : ℕ → List ℕ → Call → Type 0
Jumps seed set call =
    (call.1 ≡ true) ⊎ ((t : ℕ) × (call.0 ≡ some t) × ((t ≡ seed) ⊎ (elem t set ≡ true)))

Jumps-iff :
    (seed : ℕ) (set : List ℕ) (indirect : Bool) (target : Option ℕ)
    → ((indirect || may_jump seed set target) ≡ true) ↔ Jumps seed set (target, indirect)
Jumps-iff seed set true target = (λ e. inl refl, λ j. refl)
Jumps-iff seed set false none =
    (λ e. absurd (cc e), λ j. elim j [ inl e ↦ absurd (cc e) | inr (t, e, why) ↦ absurd (cc e) ])
Jumps-iff seed set false (some t) =
    (λ e. inr (t, refl, why e), λ j. elim j [ inl e ↦ absurd (cc e) | inr (u, e, w) ↦ back u e w ])
  where
    why : (t == seed || elem t set) ≡ true → (t ≡ seed) ⊎ (elem t set ≡ true)
    why e = elim (Bool-cases (t == seed)) [
      | inl same ↦ inl (ground (arith, same))
      | inr other ↦ inr (rw other at e)
    ]

    back :
        (u : ℕ)
        → some t ≡ some u
        → (u ≡ seed) ⊎ (elem u set ≡ true)
        → (t == seed || elem t set) ≡ true
    back u e (inl same) = let at : t ≡ u = cc e in ground (arith, at, same)
    back u e (inr found) = let at : t ≡ u = cc e in rw at (rw found (or_true (u == seed)))
      where
        or_true : (b : Bool) → (b || true) ≡ true
        or_true true = refl
        or_true false = refl

-- One instruction, in front of what follows it in the body, and its flag.
pub record IsInstr (seed : ℕ) (set : List ℕ) (p : Piece) : Type 0 where
  pub rest : Cur
  pub beyond : List ℕ
  pub call : Call
  pub steps : walk_instr (input (p.0 ++ rest.here) beyond) ≡ ok (call, rest)
  pub flag : (p.1 ≡ true) ↔ Jumps seed set call

-- The positions behind the flagged pieces.
abbrev marks : ℕ → List Piece → List ℕ
marks at [] = []
marks at ((bs, b) ∷ ps) =
    if b then (at + length bs) ∷ marks (at + length bs) ps else marks (at + length bs) ps

insert_at-front :
    (guard pre rest : List ℕ)
    → insert_at guard (pre ++ rest) (length pre) ≡ ok (pre ++ (guard ++ rest))
unfolding insert_at
insert_at-front guard pre rest =
    let within : leb (length pre) (length (pre ++ rest)) ≡ true =
      ground (arith, length-append pre rest) in
    rw (within, take-append pre rest, drop-append pre rest) refl

-- Inserting from the last position to the first weaves the guard in.
insert_all-marks :
    (guard pre : List ℕ) (ps : List Piece)
    → insert_all guard (pre ++ bytes_of ps) (marks (length pre) ps) ≡ ok (pre ++ guarded guard ps)
unfolding insert_all
insert_all-marks guard pre [] = refl
insert_all-marks guard pre ((bs, true) ∷ ps) =
    ap (λ body. insert_all guard body (marks (length pre) ((bs, true) ∷ ps)))
      (sym (append_assoc pre bs (bytes_of ps)))
    ∙ ap (λ at. insert_all guard ((pre ++ bs) ++ bytes_of ps) (at ∷ marks at ps))
        (sym (length-append pre bs))
    ∙ ap (λ o. o >>= λ nb. insert_at guard nb (length (pre ++ bs)))
        (insert_all-marks guard (pre ++ bs) ps)
    ∙ insert_at-front guard (pre ++ bs) (guarded guard ps)
    ∙ ap ok (append_assoc pre bs (guard ++ guarded guard ps))
insert_all-marks guard pre ((bs, false) ∷ ps) =
    ap (λ body. insert_all guard body (marks (length pre) ((bs, false) ∷ ps)))
      (sym (append_assoc pre bs (bytes_of ps)))
    ∙ ap (λ at. insert_all guard ((pre ++ bs) ++ bytes_of ps) (marks at ps))
        (sym (length-append pre bs))
    ∙ insert_all-marks guard (pre ++ bs) ps
    ∙ ap ok (append_assoc pre bs (guarded guard ps))

module _ (seed : ℕ) (set : List ℕ) (size : ℕ) where
  marked_on :
      (b : Bool) (after bs : List ℕ) (at : ℕ) (ps : List Piece)
      → (if b then after ++ ((at + length bs) ∷ []) else after) ++ marks (at + length bs) ps
        ≡ after ++ marks at ((bs, b) ∷ ps)
  marked_on true after bs at ps =
      append_assoc after ((at + length bs) ∷ []) (marks (at + length bs) ps)
  marked_on false after bs at ps = refl

  -- The loop that collects the positions, where `funcCalls` can walk the same bytes.
  after_loop-marks :
      (fuel : ℕ) (here beyond : List ℕ) (calls : List ℕ) (ind : Bool) (after : List ℕ)
      {f : List ℕ × Bool}
      → length here ≤ size
      → calls_loop fuel (input here beyond) calls ind ≡ ok f
      → (ps : List Piece) × (bytes_of ps ≡ here)
        × All (IsInstr seed set) ps
        × (after_loop fuel seed set size (input here beyond) after
            ≡ ok (after ++ marks (size - length here) ps))
  unfolding after_loop calls_loop eof
  after_loop-marks zero here beyond calls ind after le h = absurd (cc h)
  after_loop-marks (suc fuel) [] beyond calls ind after le h =
      ([], refl, tt, ap ok (sym (append-nil after)))
  after_loop-marks (suc fuel) (x ∷ xs) beyond calls ind after le h =
      let c = input (x ∷ xs) beyond in
      let (w, e, h') = >>=-eq-ok (walk_instr c) _ h in
      let (used, at) = Cuts-walk_instr.cut c w.0 w.1 e in
      let b = w.0.1 || may_jump seed set w.0.0 in
      let sizes : length (x ∷ xs) ≡ length used + length w.1.here =
        ap length at ∙ length-append used w.1.here in
      let next = if b then after ++ ((size - length w.1.here) ∷ []) else after in
      let (ps, bytes, all, eq) =
        after_loop-marks fuel w.1.here w.1.beyond _ _ next (omega (arith, sizes, le)) h' in
      let moved : size - length w.1.here ≡ size - length (x ∷ xs) + length used =
        omega (arith, sizes, le) in
      (
        (used, b) ∷ ps,
        ap (λ t. used ++ t) bytes ∙ sym at,
        (
          record {
            rest = w.1;
            beyond = beyond;
            call = w.0;
            steps = subst (λ t. walk_instr (input t beyond) ≡ ok w) at e;
            flag = Jumps-iff seed set w.0.1 w.0.0;
          },
          all,
        ),
        ap
              (λ o. o >>= λ v. after_loop fuel seed set size v.1 (
                if v.0.1 || may_jump seed set v.0.0
                then after ++ ((size - length v.1.here) ∷ [])
                else after))
              e
            ∙ eq
            ∙ ap (λ n. ok ((if b then after ++ (n ∷ []) else after) ++ marks n ps)) moved
            ∙ ap ok (marked_on b after used (size - length (x ∷ xs)) ps),
      )

-- Where funcCalls can walk a body, the body is a sequence of instructions, the positions are
-- found, and the insertion succeeds and puts the guard behind each instruction that is a
-- call_indirect or calls the throw or a function of the set, and nowhere else.
pub insert_all-after_calls :
    (seed : ℕ) (set guard body : List ℕ) (f : List ℕ × Bool)
    → func_calls body ≡ ok f
    → (ps : List Piece) × (after : List ℕ) × (bytes_of ps ≡ body)
      × All (IsInstr seed set) ps
      × (after_calls seed set body ≡ ok after)
      × (insert_all guard body after ≡ ok (guarded guard ps))
unfolding after_calls func_calls
insert_all-after_calls seed set guard body f h =
    let (ps, bytes, all, eq) =
      after_loop-marks seed set (length body) (suc (length body)) body [] [] false [] (omega arith)
        h in
    let start : length body - length body ≡ 0 = omega arith in
    (
      ps,
      marks 0 ps,
      bytes,
      all,
      eq ∙ ap (λ n. ok (marks n ps)) start,
      ap (λ t. insert_all guard t (marks 0 ps)) (sym bytes) ∙ insert_all-marks guard [] ps,
    )
