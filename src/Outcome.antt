-- ===== src/Outcome.antt =====
-- Sequencing of calls that may fail or panic: `?`, and what follows a call that may panic.
use sawtooth_pbft.Common.{◌≡◌, refl, Option, none, some}
use sawtooth_pbft.Error.{PbftError, Outcome, ok, err, panic, out_of_fuel}

infixl 5 ◌>>=◌
abbrev pub ◌>>=◌ : {A B : Type 0} → Outcome A → (A → Outcome B) → Outcome B
ok a >>= f = f a
err e >>= f = err e
panic >>= f = panic
out_of_fuel >>= f = out_of_fuel

-- `expect` and `unwrap`.
abbrev pub or_panic : {A : Type 0} → Option A → Outcome A
or_panic none = panic
or_panic (some a) = ok a

-- `ok_or_else` and `map_err` with `?`.
abbrev pub or_fail : {A : Type 0} → PbftError → Option A → Outcome A
or_fail e none = err e
or_fail e (some a) = ok a

-- Where a sequence gives a value, its first step gave one.
pub first_step :
    {A B : Type 0} {b : B} (r : Outcome A) (next : A → Outcome B)
    → (r >>= next) ≡ ok b
    → (a : A) × ((r ≡ ok a) × (next a ≡ ok b))
first_step (err e) next h = cc
first_step panic next h = cc
first_step out_of_fuel next h = cc
first_step (ok a) next h = (a, (refl, h))
