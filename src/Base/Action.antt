-- ===== src/Base/Action.antt =====
-- A method on a state that can fail: what it wrote before an error stays written.
use mathlib.Core.Path.{◌≡◌, refl, ap}
use pglite_go.Base.Outcome.{Outcome, ok, err, panic, stuck}

abbrev pub Act {ℓ} : Type ℓ → Type ℓ → Type ℓ
Act S A = S → Outcome A × S

abbrev pub continue {ℓ} : {S A B : Type ℓ} → Outcome A × S → (A → Act S B) → Outcome B × S
continue (ok a, s) f = f a s
continue (err e, s) f = (err e, s)
continue (panic, s) f = (panic, s)
continue (stuck, s) f = (stuck, s)

infixl 5 ◌>>=◌ ◌>>◌
abbrev pub ◌>>=◌ {ℓ} : {S A B : Type ℓ} → Act S A → (A → Act S B) → Act S B
◌>>=◌ m f s = continue (m s) f

abbrev pub ◌>>◌ : {S B : Type 0} → Act S (Unit {0}) → Act S B → Act S B
m >> k = m >>= λ _. k

pub continue-eq-ok :
    {S A B : Type 0} (r : Outcome A × S) (f : A → Act S B) {b : B} {s' : S}
    → continue r f ≡ (ok b, s')
    → (a : A) × (s : S) × (r ≡ (ok a, s)) × (f a s ≡ (ok b, s'))
continue-eq-ok (ok a, s) f h = (a, s, refl, h)
continue-eq-ok (err e, s) f h = absurd (cc (ap (λ p. p.0) h))
continue-eq-ok (panic, s) f h = absurd (cc (ap (λ p. p.0) h))
continue-eq-ok (stuck, s) f h = absurd (cc (ap (λ p. p.0) h))

-- A condition on the state at any end of a call, and one on its result.
abbrev pub Holds {ℓ} : {S A : Type ℓ} → (S → Type ℓ) → (A → S → Type ℓ) → Outcome A × S → Type ℓ
Holds I P (ok a, s) = I s × P a s
Holds I P (err e, s) = I s
Holds I P (panic, s) = I s
Holds I P (stuck, s) = I s

pub Holds-continue {ℓ} :
    {S A B : Type ℓ} {I J : S → Type ℓ} {P : A → S → Type ℓ} (Q : B → S → Type ℓ)
    (r : Outcome A × S) (f : A → Act S B)
    → ((s : S) → I s → J s)
    → ((a : A) (s : S) → I s → P a s → Holds J Q (f a s))
    → Holds I P r
    → Holds J Q (continue r f)
Holds-continue Q (ok a, s) f weaken next (i, p) = next a s i p
Holds-continue Q (err e, s) f weaken next i = weaken s i
Holds-continue Q (panic, s) f weaken next i = weaken s i
Holds-continue Q (stuck, s) f weaken next i = weaken s i

pub Holds-mono {ℓ} :
    {S A : Type ℓ} {I J : S → Type ℓ} {P Q : A → S → Type ℓ} (r : Outcome A × S)
    → ((s : S) → I s → J s)
    → ((a : A) (s : S) → I s → P a s → Q a s)
    → Holds I P r
    → Holds J Q r
Holds-mono (ok a, s) weaken result (i, p) = (weaken s i, result a s i p)
Holds-mono (err e, s) weaken result i = weaken s i
Holds-mono (panic, s) weaken result i = weaken s i
Holds-mono (stuck, s) weaken result i = weaken s i

pub Holds-state {ℓ} :
    {S A : Type ℓ} (I : S → Type ℓ) (P : A → S → Type ℓ) (r : Outcome A × S) → Holds I P r → I r.1
Holds-state I P (ok a, s) h = h.0
Holds-state I P (err e, s) i = i
Holds-state I P (panic, s) i = i
Holds-state I P (stuck, s) i = i

-- One condition on a call that succeeds, another on the state behind one that does not.
abbrev pub Ends {ℓ} : {S A : Type ℓ} → (S → Type ℓ) → (A → S → Type ℓ) → Outcome A × S → Type ℓ
Ends I P (ok a, s) = P a s
Ends I P (err e, s) = I s
Ends I P (panic, s) = I s
Ends I P (stuck, s) = I s

pub Ends-continue {ℓ} :
    {S A B : Type ℓ} {I J : S → Type ℓ} {P : A → S → Type ℓ} (Q : B → S → Type ℓ)
    (r : Outcome A × S) (f : A → Act S B)
    → ((s : S) → I s → J s)
    → ((a : A) (s : S) → P a s → Ends J Q (f a s))
    → Ends I P r
    → Ends J Q (continue r f)
Ends-continue Q (ok a, s) f weaken next p = next a s p
Ends-continue Q (err e, s) f weaken next i = weaken s i
Ends-continue Q (panic, s) f weaken next i = weaken s i
Ends-continue Q (stuck, s) f weaken next i = weaken s i

pub Ends-mono {ℓ} :
    {S A : Type ℓ} {I J : S → Type ℓ} {P Q : A → S → Type ℓ} (r : Outcome A × S)
    → ((s : S) → I s → J s)
    → ((a : A) (s : S) → P a s → Q a s)
    → Ends I P r
    → Ends J Q r
Ends-mono (ok a, s) weaken result p = result a s p
Ends-mono (err e, s) weaken result i = weaken s i
Ends-mono (panic, s) weaken result i = weaken s i
Ends-mono (stuck, s) weaken result i = weaken s i

-- What holds at any end, beside what holds at success.
pub Ends-both {ℓ} :
    {S A : Type ℓ} {I K : S → Type ℓ} (J : S → Type ℓ) (P Q : A → S → Type ℓ) (r : Outcome A × S)
    → ((s : S) → I s → K s)
    → Holds I P r
    → Ends J Q r
    → Ends J (λ a s. K s × Q a s) r
Ends-both J P Q (ok a, s) also h p = (also s h.0, p)
Ends-both J P Q (err e, s) also h i = i
Ends-both J P Q (panic, s) also h i = i
Ends-both J P Q (stuck, s) also h i = i

pub Ends-of {ℓ} :
    {S A : Type ℓ} {I J : S → Type ℓ} (P : A → S → Type ℓ) (r : Outcome A × S)
    → ((s : S) → I s → J s)
    → Holds I P r
    → Ends J (λ a s. J s × P a s) r
Ends-of P (ok a, s) weaken h = (weaken s h.0, h.1)
Ends-of P (err e, s) weaken h = weaken s h
Ends-of P (panic, s) weaken h = weaken s h
Ends-of P (stuck, s) weaken h = weaken s h

pub Ends-and {ℓ} :
    {S A : Type ℓ} (I J : S → Type ℓ) (P Q : A → S → Type ℓ) (r : Outcome A × S)
    → Ends I P r
    → Ends J Q r
    → Ends I (λ a s. P a s × Q a s) r
Ends-and I J P Q (ok a, s) p q = (p, q)
Ends-and I J P Q (err e, s) i j = i
Ends-and I J P Q (panic, s) i j = i
Ends-and I J P Q (stuck, s) i j = i
