-- ===== src/Engine/Unwatched.antt =====
-- The timeout for the primary once a `PrePrepare` is accepted.
use sawtooth_pbft.Common.{
  if◌then◌else◌, ◌==◌, ==_iff, nat_eq, string_eq, bytes_eq, ℕ, zero, suc, ◌≡◌, refl, sym, ap, ◌∙◌,
  subst, inl, Bool, true, false,
}
use sawtooth_pbft.Protos.{block_eq, info_eq, message_eq, seal_eq, view_change_eq}
use sawtooth_pbft.MessageType.{type_eq}
use sawtooth_pbft.Error.{PbftError, Outcome, ok, err, panic, out_of_fuel}
use sawtooth_pbft.ParsedMessage.{ParsedMessage, parsed_eq, info}
use sawtooth_pbft.Timing.{TimeoutState, expire, is_expired, check_expired}
use sawtooth_pbft.State.{phase_eq, is_primary}
use sawtooth_pbft.Log.{entry_eq}
use sawtooth_pbft.Service.{Env}
use sawtooth_pbft.Node.{PbftNode, M, ◌>>=◌, ◌>>◌, fail, done}
use sawtooth_pbft.Node.Keeps.{after}
use sawtooth_pbft.Handlers.{enter_preparing, accept_pre_prepare, handle_pre_prepare}
use sawtooth_pbft.Node.Frame.{LeavesBase, base_rules}
use sawtooth_pbft.Node.Framed.{check_existing-LeavesBase}
use sawtooth_pbft.Engine.{work}
use sawtooth_pbft.Engine.Watch.{looked, work-waits}

abbrev pub IsUnwatched : PbftNode → Type 0
IsUnwatched n = n.state.faulty_primary_timeout.state ≡ TimeoutState.inactive

-- A method that stops the timeout whenever it succeeds at the sequence number.
record StopsAt (seq : ℕ) {A : Type 0} (m : M A) : Type 0 where
  at : (n : PbftNode) → n.state.seq_num ≡ seq → (a : A) → (m n).0 ≡ ok a → IsUnwatched (m n).1

module _ {seq : ℕ} where
  fail-StopsAt : {A : Type 0} (e : PbftError) → StopsAt seq (fail {A = A} e)
  fail-StopsAt {A = A} e = record { at = λ n s a h. absurd (no_value a h) }
    where
      no_value : (a : A) → err e ≡ ok a → ⊥
      no_value a h = cc

  if-StopsAt :
      {A : Type 0} (b : Bool) (m k : M A)
      → StopsAt seq m
      → StopsAt seq k
      → StopsAt seq (if b then m else k)
  if-StopsAt true m k h g = h
  if-StopsAt false m k h g = g

  -- Behind a step that leaves the sequence number alone.
  behind-StopsAt :
      {A B : Type 0} {m : M A} {f : A → M B}
      → LeavesBase m
      → ((a : A) → StopsAt seq (f a))
      → StopsAt seq (m >>= f)
  behind-StopsAt {A = A} {B = B} {m = m} {f = f} h k = record {
    at = λ n s b e. go (m n).0 (m n).1 ((h.at n).same_seq ∙ s) b e;
  }
    where
      go :
          (r : Outcome A) (j : PbftNode)
          → j.state.seq_num ≡ seq
          → (b : B) → (after f (r, j)).0 ≡ ok b
          → IsUnwatched (after f (r, j)).1
      go (ok a) j s b e = (k a).at j s b e
      go (err x) j s b e = cc
      go panic j s b e = cc
      go out_of_fuel j s b e = cc

module _ (env : Env) (msg : ParsedMessage) where
  enter_preparing-StopsAt : StopsAt (info msg).seq_num (enter_preparing env msg)
  unfolding enter_preparing
  enter_preparing-StopsAt = record {
    at = λ n s a e. stopped n ((==_iff (info msg).seq_num n.state.seq_num).1 (sym s));
  }
    where
      stopped :
          (n : PbftNode)
          → ((info msg).seq_num == n.state.seq_num) ≡ true
          → IsUnwatched (enter_preparing env msg n).1
      stopped n e = rw e refl

  handle_pre_prepare-StopsAt : StopsAt (info msg).seq_num (handle_pre_prepare env msg)
  unfolding handle_pre_prepare accept_pre_prepare
  handle_pre_prepare-StopsAt =
      search
        (
          base_rules, fail-StopsAt, if-StopsAt, behind-StopsAt, enter_preparing-StopsAt,
          check_existing-LeavesBase,
        )
        depth 16

-- A number of runs of a callback, one after the other.
pub repeat : ℕ → M (Unit {0}) → M (Unit {0})
repeat zero m = done
repeat (suc i) m = m >> repeat i m

module _ (env : Env) (send : ParsedMessage → M (Unit {0})) where
  looked-IsUnwatched :
      (n : PbftNode)
      → IsUnwatched n
      → ((check_expired (env.clock n.readings) n.state.faulty_primary_timeout).0 ≡ false)
        × IsUnwatched (looked env n)
  unfolding check_expired expire is_expired
  looked-IsUnwatched n e = (rw e refl, rw e refl)

  repeat-waits :
      (i : ℕ) (n : PbftNode)
      → IsUnwatched n
      → is_primary n.state ≡ false
      → ((repeat i (work env send) n).0 ≡ ok tt)
        × ((repeat i (work env send) n).1.calls ≡ n.calls)
        × ((repeat i (work env send) n).1.state.phase ≡ n.state.phase)
  unfolding repeat
  repeat-waits zero n e secondary = (refl, refl, refl)
  repeat-waits (suc i) n e secondary =
      let (calm, still) = looked-IsUnwatched n e in
      let once = work-waits env send n secondary (inl calm) in
      let more = repeat-waits i (looked env n) still secondary in
      subst
        (λ r.
          ((after (λ _. repeat i (work env send)) r).0 ≡ ok tt)
          × ((after (λ _. repeat i (work env send)) r).1.calls ≡ n.calls)
          × ((after (λ _. repeat i (work env send)) r).1.state.phase ≡ n.state.phase))
        (sym once) more

  -- Once a secondary has accepted a `PrePrepare` for its sequence number, it no longer watches the
  -- primary: however often the working ticker runs after that, and whatever the time, it makes no call
  -- and does not change the phase.
  pub handle_pre_prepare-work :
      (msg : ParsedMessage) (n k : PbftNode) (i : ℕ)
      → handle_pre_prepare env msg n ≡ (ok tt, k)
      → n.state.seq_num ≡ (info msg).seq_num
      → is_primary k.state ≡ false
      → IsUnwatched k
        × ((repeat i (work env send) k).0 ≡ ok tt)
        × ((repeat i (work env send) k).1.calls ≡ k.calls)
        × ((repeat i (work env send) k).1.state.phase ≡ k.state.phase)
  handle_pre_prepare-work msg n k i accepted current secondary =
      let stopped : IsUnwatched k =
        subst IsUnwatched (ap (λ r. r.1) accepted)
          ((handle_pre_prepare-StopsAt env msg).at n current tt (ap (λ r. r.0) accepted)) in
      let waits = repeat-waits i k stopped secondary in (stopped, waits.0, waits.1, waits.2)
