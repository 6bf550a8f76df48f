-- ===== src/Exec.antt =====
-- Python code that changes state and may raise: a function from the state to its result and the
-- state that it leaves. What was written before an exception stays written.
use raidex.Prelude.{◌≡◌, ◌⊎◌, inl, inr, refl}

-- The exceptions that the modelled code raises, its own and the interpreter's.
pub data Exc : Type 0 where
  value_error attribute_error key_error type_error assertion_error : Exc
  machine_error : Exc
  zero_division_error invalid_operation offer_timed_out already_timed_out : Exc
  other : Exc

pub data Result {ℓ} (A : Type ℓ) : Type ℓ where
  ok : A → Result A
  raised : Exc → Result A

pub result-cases {ℓ} :
    {A : Type ℓ} (r : Result A) → ((x : Exc) × (r ≡ raised x)) ⊎ ((a : A) × (r ≡ ok a))
result-cases (ok a) = inr (a, refl)
result-cases (raised x) = inl (x, refl)

abbrev pub Exec {ℓ κ} : Type ℓ → Type κ → Type (ℓ ⊔ κ)
Exec S A = S → Result A × S

infixl 5 ◌>>=◌ ◌>>◌
abbrev pub and_then {ℓ κ ι} :
    {S : Type ℓ} {A : Type κ} {B : Type ι} → Result A → S → (A → Exec S B) → Result B × S
and_then (ok a) s f = f a s
and_then (raised e) s f = (raised e, s)

abbrev pub ◌>>=◌ {ℓ κ ι} :
    {S : Type ℓ} {A : Type κ} {B : Type ι} → Exec S A → (A → Exec S B) → Exec S B
◌>>=◌ m f s = let (r, s') = m s in and_then r s' f

abbrev pub ◌>>◌ {ℓ κ} : {S : Type ℓ} {B : Type κ} → Exec S (Unit {0}) → Exec S B → Exec S B
m >> k = m >>= λ _. k

module _ {ℓ} {S : Type ℓ} where
  abbrev pub pure {κ} : {A : Type κ} → A → Exec S A
  pure a s = (ok a, s)

  abbrev pub raise {κ} : {A : Type κ} → Exc → Exec S A
  raise e s = (raised e, s)

  abbrev pub gets {κ} : {A : Type κ} → (S → A) → Exec S A
  gets f s = (ok (f s), s)

  abbrev pub modify : (S → S) → Exec S (Unit {0})
  modify f s = (ok tt, f s)

  -- A statement that calls a function and drops its value.
  abbrev pub ignore {κ} : {A : Type κ} → Exec S A → Exec S (Unit {0})
  ignore m s = let (r, s') = m s in and_then r s' (λ _. pure tt)
