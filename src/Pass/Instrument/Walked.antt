-- ===== src/Pass/Instrument/Walked.antt =====
-- What one step of the instruction walker takes off the front of a body.
use pglite_go.Base.{
  ℕ, zero, suc, ◌+◌, ◌%◌, ◌^◌, ◌≡◌, refl, sym, ◌∙◌, ap, Bool, true, false, Bool-cases, inl, inr,
  List, [], ◌∷◌, ◌++◌, take, append_assoc, take-append-drop, ◌==◌, bit_and, if◌then◌else◌, leb,
  ◌||◌,
}
use pglite_go.Base.Outcome.{Outcome, ok, err, panic, stuck}
use pglite_go.Cursor.{Cur, Read, continue, ◌>>=◌, pure, fault, byte1, skip, repeat, input}
use pglite_go.Leb.{uleb, sleb, u32, s64, lift}
use pglite_go.Pass.Walk.{misc_operands, data_operands, operands, walk_instr, plain, between}

-- What the reader has returned behind, it has found behind a piece of the input.
pub record Cuts {ℓ} {A : Type ℓ} (rd : Read A) : Type ℓ where
  pub cut :
      (c : Cur) (a : A) (c' : Cur)
      → rd c ≡ ok (a, c')
      → (used : List ℕ) × (c.here ≡ used ++ c'.here)

here_of {ℓ} :
    {A : Type ℓ} {a b : A} {c c' : Cur}
    → ◌≡◌ {A = Outcome (A × Cur)} (ok (a, c)) (ok (b, c'))
    → c.here ≡ c'.here
here_of e = cc

Cuts-pure {ℓ} : {A : Type ℓ} (a : A) → Cuts (pure a)
Cuts-pure a = record { cut = λ c b c' e. ([], here_of e) }

Cuts-fault {ℓ} : {A : Type ℓ} → Cuts (fault {A = A})
Cuts-fault = record { cut = λ c a c' e. absurd (cc e) }

continue-eq-ok :
    {A B : Type 0} (r : Outcome (A × Cur)) (f : A → Read B) {b : B} {c' : Cur}
    → continue r f ≡ ok (b, c')
    → (a : A) × (c : Cur) × (r ≡ ok (a, c)) × (f a c ≡ ok (b, c'))
continue-eq-ok (ok (a, c)) f e = (a, c, refl, e)
continue-eq-ok (err x) f e = absurd (cc e)
continue-eq-ok panic f e = absurd (cc e)
continue-eq-ok stuck f e = absurd (cc e)

Cuts-bind :
    {A B : Type 0} {m : Read A} {f : A → Read B} → Cuts m → ((a : A) → Cuts (f a)) → Cuts (m >>= f)
Cuts-bind {m = m} {f = f} h k = record {
  cut = λ c b c' e.
      let (a, d, first, second) = continue-eq-ok (m c) f e in
      let (used, at) = h.cut c a d first in
      let (more, then_at) = (k a).cut d b c' second in
      (used ++ more, at ∙ ap (λ t. used ++ t) then_at ∙ sym (append_assoc used more c'.here));
}

Cuts-if : {A : Type 0} (b : Bool) {m n : Read A} → Cuts m → Cuts n → Cuts (if b then m else n)
Cuts-if true h k = h
Cuts-if false h k = k

Cuts-byte1 : Cuts byte1
unfolding byte1
Cuts-byte1 = record { cut = λ c. at c.here c.beyond }
  where
    at :
        (xs beyond : List ℕ) (a : ℕ) (c' : Cur)
        → byte1 (input xs beyond) ≡ ok (a, c')
        → (used : List ℕ) × (xs ≡ used ++ c'.here)
    at [] beyond a c' e = absurd (cc e)
    at (x ∷ xs) beyond a c' e = (x ∷ [], ap (λ t. x ∷ t) (here_of e))

Cuts-skip : (n : ℕ) → Cuts (skip n)
unfolding skip
Cuts-skip n = record {
  cut = λ c a c' e.
      (take n c.here, sym (take-append-drop n c.here) ∙ ap (λ t. take n c.here ++ t) (here_of e));
}

Cuts-repeat : {A : Type 0} (n : ℕ) {m : Read A} → Cuts m → Cuts (repeat n m)
unfolding repeat
Cuts-repeat zero h = Cuts-pure []
Cuts-repeat (suc n) h = Cuts-bind h (λ x. Cuts-bind (Cuts-repeat n h) (λ xs. Cuts-pure (x ∷ xs)))

ok_rest :
    {v w : ℕ} {xs ys : List ℕ} → ◌≡◌ {A = Outcome (ℕ × List ℕ)} (ok (v, xs)) (ok (w, ys)) → xs ≡ ys
ok_rest e = cc

uleb_cut :
    (w : ℕ) (xs : List ℕ) (r s v : ℕ) (rest : List ℕ)
    → uleb w xs r s ≡ ok (v, rest)
    → (used : List ℕ) × (xs ≡ used ++ rest)
unfolding uleb
uleb_cut w [] r s v rest e = absurd (cc e)
uleb_cut w (x ∷ xs) r s v rest e = elim (Bool-cases (bit_and x 0x80 == 0)) [
  | inl last ↦ (x ∷ [], ap (λ t. x ∷ t) (ok_rest (rw last at e)))
  | inr more ↦
      let (used, at) = uleb_cut w xs _ _ v rest (rw more at e) in (x ∷ used, ap (λ t. x ∷ t) at)
]

sleb_cut :
    (xs : List ℕ) (r s v : ℕ) (rest : List ℕ)
    → sleb xs r s ≡ ok (v, rest)
    → (used : List ℕ) × (xs ≡ used ++ rest)
unfolding sleb
sleb_cut [] r s v rest e = absurd (cc e)
sleb_cut (x ∷ xs) r s v rest e = elim (Bool-cases (bit_and x 0x80 == 0)) [
  | inl last ↦ (x ∷ [], ap (λ t. x ∷ t) (ok_rest (rw last at e)))
  | inr more ↦
      let (used, at) = sleb_cut xs _ _ v rest (rw more at e) in (x ∷ used, ap (λ t. x ∷ t) at)
]

lift_cut :
    (o : Outcome (ℕ × List ℕ)) (xs beyond : List ℕ)
    → ((v : ℕ) (rest : List ℕ) → o ≡ ok (v, rest) → (used : List ℕ) × (xs ≡ used ++ rest))
    → (a : ℕ) (c' : Cur) → lift o beyond ≡ ok (a, c')
    → (used : List ℕ) × (xs ≡ used ++ c'.here)
lift_cut (ok (v, rest)) xs beyond h a c' e =
    let (used, at) = h v rest refl in (used, at ∙ ap (λ t. used ++ t) (here_of e))
lift_cut (err x) xs beyond h a c' e = absurd (cc e)
lift_cut panic xs beyond h a c' e = absurd (cc e)
lift_cut stuck xs beyond h a c' e = absurd (cc e)

Cuts-u32 : Cuts u32
unfolding u32
Cuts-u32 = record {
  cut = λ c. lift_cut (uleb 32 c.here 0 0) c.here c.beyond (uleb_cut 32 c.here 0 0);
}

Cuts-s64 : Cuts s64
unfolding s64
Cuts-s64 = record { cut = λ c. lift_cut (sleb c.here 0 0) c.here c.beyond (sleb_cut c.here 0 0) }

Cuts-then : {A B : Type 0} {m : Read A} {n : Read B} → Cuts m → Cuts n → Cuts (m >>= λ _. n)
Cuts-then h k = Cuts-bind h (λ _. k)

Cuts-plain : Cuts plain
Cuts-plain = Cuts-pure _

one : {A : Type 0} {m : Read A} → Cuts m → Cuts (m >>= λ _. plain)
one h = Cuts-then h Cuts-plain

two :
    {A B : Type 0} {m : Read A} {n : Read B}
    → Cuts m
    → Cuts n
    → Cuts (m >>= λ _. (n >>= λ _. plain))
two h k = Cuts-then h (one k)

Cuts-misc_operands : (sub : ℕ) → Cuts (misc_operands sub)
unfolding misc_operands
Cuts-misc_operands sub = Cuts-if (leb sub 7) Cuts-plain (
    Cuts-if (sub == 8) (two Cuts-u32 Cuts-byte1) (
      Cuts-if (sub == 9) (one Cuts-u32) (
        Cuts-if (sub == 10) (two Cuts-byte1 Cuts-byte1) (
          Cuts-if (sub == 11) (one Cuts-byte1) (
            Cuts-if (sub == 12) (two Cuts-u32 Cuts-u32) (
              Cuts-if (sub == 13) (one Cuts-u32) (
                Cuts-if (sub == 14) (two Cuts-u32 Cuts-u32)
                  (Cuts-if (between 15 sub 17) (one Cuts-u32) Cuts-fault))))))))

Cuts-data_operands : (op : ℕ) → Cuts (data_operands op)
unfolding data_operands
Cuts-data_operands op = Cuts-if (between 0x20 op 0x24) (one Cuts-u32) (
    Cuts-if (between 0x25 op 0x26) (one Cuts-u32) (
      Cuts-if (between 0x28 op 0x3e) (two Cuts-u32 Cuts-u32) (
        Cuts-if (op == 0x3f || op == 0x40) (one Cuts-byte1) (
          Cuts-if (op == 0x41) (one Cuts-s64) (
            Cuts-if (op == 0x42) (one Cuts-s64) (
              Cuts-if (op == 0x43) (one (Cuts-skip 4)) (
                Cuts-if (op == 0x44) (one (Cuts-skip 8)) (
                  Cuts-if (between 0x45 op 0xbf) Cuts-plain (
                    Cuts-if (between 0xc0 op 0xc4) Cuts-plain (
                      Cuts-if (op == 0xd0) (one Cuts-byte1) (
                        Cuts-if (op == 0xd1) Cuts-plain (
                          Cuts-if (op == 0xd2) (one Cuts-u32) (
                            Cuts-if (op == 0xfc) (Cuts-bind Cuts-u32 Cuts-misc_operands)
                              Cuts-fault)))))))))))))

Cuts-operands : (op : ℕ) → Cuts (operands op)
unfolding operands
Cuts-operands op = Cuts-if (op == 0x02 || op == 0x03 || op == 0x04) (one Cuts-s64) (
    Cuts-if (op == 0x05) Cuts-plain (
      Cuts-if (op == 0x0b) Cuts-plain (
        Cuts-if (op == 0x0c || op == 0x0d) (one Cuts-u32) (
          Cuts-if (op == 0x0e)
            (Cuts-bind Cuts-u32 (λ n. one (Cuts-repeat ((n + 1) % 2 ^ 32) Cuts-u32)))
            (Cuts-if (op == 0x0f) Cuts-plain (
              Cuts-if (op == 0x00 || op == 0x01) Cuts-plain (
                Cuts-if (op == 0x10) (Cuts-bind Cuts-u32 (λ t. Cuts-pure _)) (
                  Cuts-if (op == 0x11) (Cuts-then Cuts-u32 (Cuts-then Cuts-u32 (Cuts-pure _))) (
                    Cuts-if (op == 0x1a || op == 0x1b) Cuts-plain (
                      Cuts-if (op == 0x1c) (Cuts-bind Cuts-u32 (λ n. one (Cuts-skip n)))
                        (Cuts-data_operands op)))))))))))

pub Cuts-walk_instr : Cuts walk_instr
unfolding walk_instr
Cuts-walk_instr = Cuts-bind Cuts-byte1 Cuts-operands
