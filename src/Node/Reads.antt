-- ===== src/Node/Reads.antt =====
-- Rules by which a method only reads the node: whatever it answers, the node stays as it is.
use sawtooth_pbft.Common.{if◌then◌else◌, ◌≡◌, refl, ◌∙◌, Bool, true, false}
use sawtooth_pbft.Error.{Outcome}
use sawtooth_pbft.Log.{PbftLog}
use sawtooth_pbft.Node.{PbftNode, M, ◌>>=◌, pure, lift, reads_log, get_state}
use sawtooth_pbft.Node.Keeps.{>>=-Keeps}

pub record Reads {A : Type 0} (m : M A) : Type 0 where
  pub same : (n : PbftNode) → (m n).1 ≡ n

pub get_state-Reads : Reads get_state
get_state-Reads = record { same = λ n. refl }

module _ {A : Type 0} where
  pub pure-Reads : (a : A) → Reads (pure a)
  pure-Reads a = record { same = λ n. refl }

  pub lift-Reads : (r : Outcome A) → Reads (lift r)
  lift-Reads r = record { same = λ n. refl }

  pub reads_log-Reads : (g : PbftLog → A) → Reads (reads_log g)
  reads_log-Reads g = record { same = λ n. refl }

  pub >>=-Reads :
      {B : Type 0} {m : M A} {f : A → M B} → Reads m → ((a : A) → Reads (f a)) → Reads (m >>= f)
  >>=-Reads {m = m} {f = f} h k = record {
    same = λ n. >>=-Keeps (λ j. j ≡ n) m f (λ j e. h.same j ∙ e) (λ a j e. (k a).same j ∙ e) n refl;
  }

  pub if-Reads : (b : Bool) (m k : M A) → Reads m → Reads k → Reads (if b then m else k)
  if-Reads true m k h g = h
  if-Reads false m k h g = g

pub ruleset read_rules =
    (get_state-Reads, pure-Reads, lift-Reads, reads_log-Reads, >>=-Reads, if-Reads)
