-- ===== src/Node/Frame.antt =====
-- What handling a message of a peer leaves alone.
use sawtooth_pbft.Common.{
  if◌then◌else◌, Bool-cases, ◌==◌, nat_eq, string_eq, bytes_eq, ℕ, ◌≡◌, refl, ◌∙◌, inl, inr, Bool,
  true, false,
}
use sawtooth_pbft.Protos.{block_eq, info_eq, message_eq, seal_eq, view_change_eq}
use sawtooth_pbft.MessageType.{type_eq}
use sawtooth_pbft.Error.{PbftError, Outcome}
use sawtooth_pbft.ParsedMessage.{ParsedMessage, parsed_eq}
use sawtooth_pbft.State.{
  PbftPhase, PbftMode, phase_eq, PbftState, upgrade_role, downgrade_role, next_phase, switch_phase,
  discard_current_block,
}
use sawtooth_pbft.Log.{entry_eq, PbftLog}
use sawtooth_pbft.Service.{Call, Env}
use sawtooth_pbft.Node.{
  PbftNode, M, ◌>>=◌, pure, fail, lift, query_state, query_log, reads_log, done, get_state,
  modify_state, modify_log, request, now, log_message, switch_to,
}
use sawtooth_pbft.Node.Keeps.{>>=-Keeps, log_message-Keeps}
use sawtooth_pbft.Handlers.{set_current_view}
use sawtooth_pbft.Node.Broadcast.{set_mode}

-- The parts of the state that only the end of a block changes.
pub record SameBase (s k : PbftState) : Type 0 where
  pub same_id : k.id ≡ s.id
  pub same_seq : k.seq_num ≡ s.seq_num
  pub same_peers : k.peer_ids ≡ s.peer_ids
  pub same_f : k.f ≡ s.f

pub SameBase-parts :
    {s k : PbftState}
    → k.id ≡ s.id
    → k.seq_num ≡ s.seq_num
    → k.peer_ids ≡ s.peer_ids
    → k.f ≡ s.f
    → SameBase s k
SameBase-parts i q p f = record { same_id = i; same_seq = q; same_peers = p; same_f = f }

pub SameBase-refl : (s : PbftState) → SameBase s s
SameBase-refl s = record { same_id = refl; same_seq = refl; same_peers = refl; same_f = refl }

SameBase-trans : (s k j : PbftState) → SameBase s k → SameBase k j → SameBase s j
SameBase-trans s k j a b = record {
  same_id = b.same_id ∙ a.same_id;
  same_seq = b.same_seq ∙ a.same_seq;
  same_peers = b.same_peers ∙ a.same_peers;
  same_f = b.same_f ∙ a.same_f;
}

-- A change of the state of which that is so.
abbrev pub KeepsBase : (PbftState → PbftState) → Type 0
KeepsBase g = (s : PbftState) → SameBase s (g s)

pub switch_to-KeepsBase : (p : PbftPhase) → KeepsBase (switch_to p)
unfolding switch_to switch_phase
switch_to-KeepsBase p s = elim (Bool-cases (p == next_phase s.phase)) [
  | inl e ↦ rw (switch_to, e) (SameBase-parts refl refl refl refl)
  | inr e ↦ rw (switch_to, e) (SameBase-parts refl refl refl refl)
]

pub upgrade_role-KeepsBase : KeepsBase upgrade_role
unfolding upgrade_role
upgrade_role-KeepsBase s = SameBase-parts refl refl refl refl

pub downgrade_role-KeepsBase : KeepsBase downgrade_role
unfolding downgrade_role
downgrade_role-KeepsBase s = SameBase-parts refl refl refl refl

pub set_current_view-KeepsBase : (view : ℕ) → KeepsBase (set_current_view view)
unfolding set_current_view
set_current_view-KeepsBase view s = SameBase-parts refl refl refl refl

pub discard_current_block-KeepsBase : (t : ℕ) → KeepsBase (discard_current_block t)
unfolding discard_current_block
discard_current_block-KeepsBase t s = SameBase-parts refl refl refl refl

pub set_mode-KeepsBase : (mode : PbftMode) → KeepsBase (set_mode mode)
set_mode-KeepsBase mode s = SameBase-parts refl refl refl refl

-- A method that leaves those parts alone, whatever it answers.
pub record LeavesBase {A : Type 0} (m : M A) : Type 0 where
  pub at : (n : PbftNode) → SameBase n.state (m n).1.state

module _ {A : Type 0} where
  pub pure-LeavesBase : (a : A) → LeavesBase (pure a)
  pure-LeavesBase a = record { at = λ n. SameBase-refl n.state }

  pub fail-LeavesBase : (e : PbftError) → LeavesBase (fail {A = A} e)
  fail-LeavesBase e = record { at = λ n. SameBase-refl n.state }

  pub lift-LeavesBase : (r : Outcome A) → LeavesBase (lift r)
  lift-LeavesBase r = record { at = λ n. SameBase-refl n.state }

  pub query_log-LeavesBase : (g : PbftLog → Outcome A) → LeavesBase (query_log g)
  query_log-LeavesBase g = record { at = λ n. SameBase-refl n.state }

  pub reads_log-LeavesBase : (g : PbftLog → A) → LeavesBase (reads_log g)
  reads_log-LeavesBase g = record { at = λ n. SameBase-refl n.state }

  pub query_state-LeavesBase : (g : PbftState → Outcome A) → LeavesBase (query_state g)
  query_state-LeavesBase g = record { at = λ n. SameBase-refl n.state }

  pub >>=-LeavesBase :
      {B : Type 0} {m : M A} {f : A → M B}
      → LeavesBase m
      → ((a : A) → LeavesBase (f a))
      → LeavesBase (m >>= f)
  >>=-LeavesBase {m = m} {f = f} h k = record {
    at = λ n.
        >>=-Keeps (λ j. SameBase n.state j.state) m f
          (λ j b. SameBase-trans n.state j.state (m j).1.state b (h.at j))
          (λ a j b. SameBase-trans n.state j.state (f a j).1.state b ((k a).at j)) n
          (SameBase-refl n.state);
  }

  pub if-LeavesBase :
      (b : Bool) (m k : M A) → LeavesBase m → LeavesBase k → LeavesBase (if b then m else k)
  if-LeavesBase true m k h g = h
  if-LeavesBase false m k h g = g

pub done-LeavesBase : LeavesBase done
done-LeavesBase = record { at = λ n. SameBase-refl n.state }

pub get_state-LeavesBase : LeavesBase get_state
get_state-LeavesBase = record { at = λ n. SameBase-refl n.state }

pub modify_state-LeavesBase :
    (g : PbftState → PbftState) → KeepsBase g → LeavesBase (modify_state g)
modify_state-LeavesBase g h = record { at = λ n. h n.state }

pub modify_log-LeavesBase : (g : PbftLog → PbftLog) → LeavesBase (modify_log g)
modify_log-LeavesBase g = record { at = λ n. SameBase-refl n.state }

pub request-LeavesBase : (env : Env) (c : Call) → LeavesBase (request env c)
request-LeavesBase env c = record { at = λ n. SameBase-refl n.state }

pub now-LeavesBase : (env : Env) → LeavesBase (now env)
now-LeavesBase env = record { at = λ n. SameBase-refl n.state }

pub log_message-LeavesBase : (msg : ParsedMessage) → LeavesBase (log_message msg)
log_message-LeavesBase msg = record {
  at = λ n.
      log_message-Keeps (λ j. SameBase n.state j.state) msg (λ j b. b) n (SameBase-refl n.state);
}

pub match-LeavesBase :
    {A B : Type 0} (m : M A) (f : Outcome A → M B)
    → LeavesBase m
    → ((r : Outcome A) → LeavesBase (f r))
    → LeavesBase (λ n. f (m n).0 (m n).1)
match-LeavesBase m f h k = record {
  at = λ n.
      SameBase-trans n.state (m n).1.state (f (m n).0 (m n).1).1.state (h.at n)
        ((k (m n).0).at (m n).1);
}

pub ruleset base_rules = (
  pure-LeavesBase, fail-LeavesBase, lift-LeavesBase, query_log-LeavesBase, reads_log-LeavesBase,
  query_state-LeavesBase, >>=-LeavesBase, if-LeavesBase, done-LeavesBase, get_state-LeavesBase,
  modify_state-LeavesBase, modify_log-LeavesBase, request-LeavesBase, now-LeavesBase,
  log_message-LeavesBase, switch_to-KeepsBase, upgrade_role-KeepsBase, downgrade_role-KeepsBase,
  set_current_view-KeepsBase, discard_current_block-KeepsBase, set_mode-KeepsBase,
)
