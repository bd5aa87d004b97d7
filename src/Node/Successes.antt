-- ===== src/Node/Successes.antt =====
-- What a method that succeeds tells about its steps.
use sawtooth_pbft.Common.{◌≡◌, refl, ap, subst, Option, none, some}
use sawtooth_pbft.Error.{PbftError, Outcome, ok, err, panic, out_of_fuel}
use sawtooth_pbft.Outcome.{or_panic, or_fail}
use sawtooth_pbft.Node.{PbftNode, M, ◌>>=◌, lift}
use sawtooth_pbft.Node.Keeps.{after}

pub >>=-ok :
    {A B : Type 0} (m : M A) (f : A → M B) (n k : PbftNode) (b : B)
    → (m >>= f) n ≡ (ok b, k)
    → (a : A) × (j : PbftNode) × (m n ≡ (ok a, j)) × (f a j ≡ (ok b, k))
>>=-ok {A = A} {B = B} m f n k b h = go (m n).0 (m n).1 refl
  where
    no_err : (x : PbftError) → err x ≡ ok b → ⊥
    no_err x e = cc

    no_panic : panic ≡ ok b → ⊥
    no_panic e = cc

    no_fuel : out_of_fuel ≡ ok b → ⊥
    no_fuel e = cc

    go :
        (r : Outcome A) (j : PbftNode)
        → m n ≡ (r, j)
        → (a : A) × (j : PbftNode) × (m n ≡ (ok a, j)) × (f a j ≡ (ok b, k))
    go (ok a) j e = (a, j, e, subst (λ p. after f p ≡ (ok b, k)) e h)
    go (err x) j e = absurd (no_err x (ap (λ p. p.0) (subst (λ p. after f p ≡ (ok b, k)) e h)))
    go panic j e = absurd (no_panic (ap (λ p. p.0) (subst (λ p. after f p ≡ (ok b, k)) e h)))
    go out_of_fuel j e = absurd (no_fuel (ap (λ p. p.0) (subst (λ p. after f p ≡ (ok b, k)) e h)))

pub lift-ok :
    {A : Type 0} (r : Outcome A) (n k : PbftNode) (a : A)
    → lift r n ≡ (ok a, k)
    → (r ≡ ok a) × (n ≡ k)
lift-ok r n k a h = (ap (λ p. p.0) h, ap (λ p. p.1) h)

pub or_fail-ok :
    {A : Type 0} (x : PbftError) (o : Option A) (a : A) → or_fail x o ≡ ok a → o ≡ some a
or_fail-ok x none a h = absurd (no h)
  where
    no : err x ≡ ok a → ⊥
    no e = cc
or_fail-ok x (some b) a h = ap some (same h)
  where
    same : ok b ≡ ok a → b ≡ a
    same e = cc

pub or_panic-ok : {A : Type 0} (o : Option A) (a : A) → or_panic o ≡ ok a → o ≡ some a
or_panic-ok none a h = absurd (no h)
  where
    no : panic ≡ ok a → ⊥
    no e = cc
or_panic-ok (some b) a h = ap some (same h)
  where
    same : ok b ≡ ok a → b ≡ a
    same e = cc
