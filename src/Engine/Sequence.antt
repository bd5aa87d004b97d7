-- ===== src/Engine/Sequence.antt =====
-- How the updates change the sequence number of the node.
use sawtooth_pbft.Common.{
  ltb, if◌then◌else◌, Bool-cases, first, Bytes, add64, ℕ, String, ◌≡◌, refl, sym, ap, subst, ◌⊎◌,
  inl, inr, Bool, true, false, Option, none, some, List, [], ◌∷◌,
}
use sawtooth_pbft.Node.{PbftNode, M, ◌>>=◌}
use sawtooth_pbft.Node.Keeps.{after-Keeps}
use sawtooth_pbft.Node.Frame.{
  SameBase, SameBase-parts, SameBase-refl, KeepsBase, LeavesBase, lift-LeavesBase,
  query_state-LeavesBase, >>=-LeavesBase, done-LeavesBase, modify_state-LeavesBase,
  log_message-LeavesBase, base_rules,
}
use sawtooth_pbft.Protos.{PbftBlock, Block}
use sawtooth_pbft.MessageType.{PbftMessageType}
use sawtooth_pbft.Error.{PbftError, Outcome, ok, panic}
use sawtooth_pbft.Outcome.{or_panic, or_fail}
use sawtooth_pbft.ParsedMessage.{ParsedMessage, info, get_block, as_msg_type}
use sawtooth_pbft.Config.{Settings}
use sawtooth_pbft.State.{PbftPhase}
use sawtooth_pbft.Service.{Call, Env}
use sawtooth_pbft.Node.Votes.{seal_messages}
use sawtooth_pbft.Node.Seal.{get_settings, peers_at, verify_parsed_seal, verify_consensus_seal}
use sawtooth_pbft.Node.Blocks.{set_working_block, on_block_commit}
use sawtooth_pbft.Node.NewBlock.{
  check_next, raise_view, log_messages, set_phase, catchup_with, catchup,
}
use sawtooth_pbft.Node.Framed.{handle_commit-LeavesBase}
use sawtooth_pbft.Node.Progress.{on_block_commit_lem}

-- The sequence number stays, or goes up by one.
abbrev pub OneStep : ℕ → ℕ → Type 0
OneStep a b = (b ≡ a) ⊎ (b ≡ add64 a 1)

-- Whatever a method answers, the sequence number makes at most one step.
pub record StepsOnce {A : Type 0} (m : M A) : Type 0 where
  pub at : (n : PbftNode) → OneStep n.state.seq_num (m n).1.state.seq_num

module _ {A : Type 0} where
  pub LeavesBase-StepsOnce : {m : M A} → LeavesBase m → StepsOnce m
  LeavesBase-StepsOnce h = record { at = λ n. inl (h.at n).same_seq }

  -- A step behind a method that leaves the sequence number alone.
  pub behind-StepsOnce :
      {B : Type 0} {m : M A} {f : A → M B}
      → LeavesBase m
      → ((a : A) → StepsOnce (f a))
      → StepsOnce (m >>= f)
  behind-StepsOnce {m = m} {f = f} h k = record {
    at = λ n.
        after-Keeps (λ j. OneStep n.state.seq_num j.state.seq_num) f (m n).0 (m n).1
          (λ a e.
            subst (λ q. OneStep q (f a (m n).1).1.state.seq_num) (h.at n).same_seq
              ((k a).at (m n).1))
          (inl (h.at n).same_seq);
  }

  -- A step before one that leaves it alone.
  pub before-StepsOnce :
      {B : Type 0} {m : M A} {f : A → M B}
      → StepsOnce m
      → ((a : A) → LeavesBase (f a))
      → StepsOnce (m >>= f)
  before-StepsOnce {m = m} {f = f} h k = record {
    at = λ n.
        after-Keeps (λ j. OneStep n.state.seq_num j.state.seq_num) f (m n).0 (m n).1
          (λ a e. subst (OneStep n.state.seq_num) (sym ((k a).at (m n).1).same_seq) (h.at n))
          (h.at n);
  }

  pub if-StepsOnce :
      (b : Bool) (m k : M A) → StepsOnce m → StepsOnce k → StepsOnce (if b then m else k)
  if-StepsOnce true m k h g = h
  if-StepsOnce false m k h g = g

module _ (env : Env) where
  get_settings-LeavesBase :
      (id : Bytes) (keys : List String) → LeavesBase (get_settings env id keys)
  unfolding get_settings
  get_settings-LeavesBase id keys = record {
    at = λ n. answered n (env.service.settings n.calls id keys);
  }
    where
      answered :
          (n : PbftNode) (r : Option Settings)
          → SameBase n.state
              (elim r as (λ _. Outcome Settings × PbftNode) [
                | none ↦ (panic, record n { calls = Call.get_settings id keys ∷ n.calls })
                | some s ↦ (ok s, record n { calls = Call.get_settings id keys ∷ n.calls })
              ]).1.state
      answered n none = SameBase-refl n.state
      answered n (some s) = SameBase-refl n.state

  peers_at-LeavesBase : (id : Bytes) → LeavesBase (peers_at env id)
  unfolding peers_at
  peers_at-LeavesBase id = search (base_rules, get_settings-LeavesBase) depth 12

  pub verify_consensus_seal-LeavesBase :
      (block : Block) → LeavesBase (verify_consensus_seal env block)
  unfolding verify_consensus_seal verify_parsed_seal
  verify_consensus_seal-LeavesBase block = search (base_rules, peers_at-LeavesBase) depth 12

  pub on_block_commit-StepsOnce : (id : Bytes) → StepsOnce (on_block_commit env id)
  on_block_commit-StepsOnce id = record {
    at = λ n. elim (on_block_commit_lem env id n) [
      | inl (why, same) ↦ inl (ap (λ r. r.1.state.seq_num) same)
      | inr (finished, working, starts) ↦ inr starts.0
    ];
  }

  raise_view-KeepsBase : (view : ℕ) → KeepsBase (raise_view view)
  unfolding raise_view
  raise_view-KeepsBase view s = elim (Bool-cases (ltb s.view view)) [
    | inl e ↦ rw e (SameBase-parts refl refl refl refl)
    | inr e ↦ rw e (SameBase-refl s)
  ]

  set_phase-KeepsBase : (p : PbftPhase) → KeepsBase (set_phase p)
  set_phase-KeepsBase p s = SameBase-parts refl refl refl refl

  pub set_working_block-KeepsBase : (b : Option PbftBlock) → KeepsBase (set_working_block b)
  set_working_block-KeepsBase b s = SameBase-parts refl refl refl refl

  log_messages-LeavesBase : (msgs : List ParsedMessage) → LeavesBase (log_messages msgs)
  unfolding log_messages
  log_messages-LeavesBase [] = done-LeavesBase
  log_messages-LeavesBase (m ∷ ms) =
      >>=-LeavesBase (log_message-LeavesBase m) (λ _. log_messages-LeavesBase ms)

  catchup_with-StepsOnce : (msgs : List ParsedMessage) → StepsOnce (catchup_with env msgs)
  unfolding catchup_with
  catchup_with-StepsOnce msgs = behind-StepsOnce (lift-LeavesBase (or_panic (first msgs))) (λ msg.
      behind-StepsOnce
        (modify_state-LeavesBase (raise_view (info msg).view)
          (raise_view-KeepsBase (info msg).view))
        (λ _. behind-StepsOnce (log_messages-LeavesBase msgs) (λ _.
          behind-StepsOnce
            (modify_state-LeavesBase (set_phase PbftPhase.committing)
              (set_phase-KeepsBase PbftPhase.committing))
            (λ _. behind-StepsOnce (lift-LeavesBase (as_msg_type msg PbftMessageType.commit)) (λ m.
              behind-StepsOnce (handle_commit-LeavesBase env m) (λ _.
                behind-StepsOnce (lift-LeavesBase (get_block msg))
                  (λ block. on_block_commit-StepsOnce block.block_id)))))))

  pub catchup-StepsOnce : (block : Block) → StepsOnce (catchup env block)
  unfolding catchup
  catchup-StepsOnce block = behind-StepsOnce (query_state-LeavesBase (check_next block)) (λ _.
      behind-StepsOnce
        (lift-LeavesBase
          (or_fail PbftError.serialization_error (env.codec.parse_seal block.payload)))
        (λ seal.
          behind-StepsOnce (lift-LeavesBase (seal_messages env.codec seal.previous_commit_votes))
            (λ msgs. catchup_with-StepsOnce msgs)))
