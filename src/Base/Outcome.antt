-- ===== src/Base/Outcome.antt =====
-- What a call of the Go code can end in: a value, an error value, or a run-time panic.
use Prim.Native.Nat.{ℕ}
use mathlib.Core.Path.{◌≡◌, refl}
use mathlib.Core.Logic.{◌≢◌}
use mathlib.Core.List.{List}

-- The error values that the modelled functions construct.
pub data Error : Type 0 where
  not_wasm : Error
  too_short : Error
  bad_magic : Error
  unknown_section : ℕ → Error
  no_dylink : Error
  truncated : Error
  server : List ℕ → Error
  call_failed : List ℕ → Error
  not_exist : Error
  not_directory : Error
  is_directory : Error
  not_empty : Error
  not_regular : Error
  bad_fd : Error
  root_placed : Error
  invalid_argument : Error
  read_failed : Error
  permission_denied : Error
  end_of_file : Error
  write_failed : Error
  bad_length : ℕ → Error
  bad_startup : ℕ → Error
  closed : Error
  out_of_bounds : Error

pub data Outcome {ℓ} (A : Type ℓ) : Type ℓ where
  ok : A → Outcome A
  err : Error → Outcome A
  panic : Outcome A
  -- No Go value: a loop of the model ran out of fuel.
  stuck : Outcome A

infixl 5 ◌>>=◌
abbrev pub ◌>>=◌ {ℓ κ} : {A : Type ℓ} {B : Type κ} → Outcome A → (A → Outcome B) → Outcome B
panic >>= next = panic
stuck >>= next = stuck
err e >>= next = err e
ok a >>= next = next a

-- What a chain that returned a value went through.
pub >>=-eq-ok {ℓ κ} :
    {A : Type ℓ} {B : Type κ} {res : B} (o : Outcome A) (next : A → Outcome B)
    → (o >>= next) ≡ ok res
    → (a : A) × (o ≡ ok a) × (next a ≡ ok res)
>>=-eq-ok panic next e = cc
>>=-eq-ok stuck next e = cc
>>=-eq-ok (ok a) next e = (a, refl, e)
>>=-eq-ok (err x) next e = cc

pub >>=-ne-stuck {ℓ κ} :
    {A : Type ℓ} {B : Type κ} (m : Outcome A) (f : A → Outcome B)
    → m ≢ stuck
    → ((a : A) → m ≡ ok a → f a ≢ stuck)
    → (m >>= f) ≢ stuck
>>=-ne-stuck (ok a) f h k = k a refl
>>=-ne-stuck (err e) f h k = λ p. cc
>>=-ne-stuck panic f h k = λ p. cc
>>=-ne-stuck stuck f h k = absurd (h refl)

pub >>=-congr {ℓ κ} :
    {A : Type ℓ} {B : Type κ} (m : Outcome A) (f g : A → Outcome B)
    → ((a : A) → f a ≡ g a)
    → (m >>= f) ≡ (m >>= g)
>>=-congr (ok a) f g h = h a
>>=-congr (err e) f g h = refl
>>=-congr panic f g h = refl
>>=-congr stuck f g h = refl

pub >>=-ok-ne-stuck {ℓ κ} :
    {A : Type ℓ} {B : Type κ} (m : Outcome A) (g : A → B)
    → m ≢ stuck
    → (m >>= λ a. ok (g a)) ≢ stuck
>>=-ok-ne-stuck m g h = >>=-ne-stuck m (λ a. ok (g a)) h (λ a e x. cc)
