-- ===== src/Node/Casts.antt =====
-- When the notice that a block is valid makes the node send a vote to commit.
use sawtooth_pbft.Common.{
  Bool-cases, Option-cases, ◌==◌, ==_iff, ==_refl, nat_eq, string_eq, Bytes, bytes_eq, ℕ, ◌≡◌, refl,
  sym, ap, ◌∙◌, subst, ◌⊎◌, inl, inr, true, none, some, ◌∷◌,
}
use sawtooth_pbft.Protos.{PbftBlock, block_eq, info_eq, message_eq, seal_eq, view_change_eq}
use sawtooth_pbft.MessageType.{PbftMessageType, type_beq, type_eq, is_multicast, type_name}
use sawtooth_pbft.Error.{PbftError, Outcome, ok, err}
use sawtooth_pbft.ParsedMessage.{ParsedMessage, parsed_eq, from_bytes}
use sawtooth_pbft.State.{PbftPhase, phase_eq, PbftState, phase_msg_type, check_msg_type}
use sawtooth_pbft.State.Phases.{Follows, switch_phase_lem}
use sawtooth_pbft.Log.{entry_eq}
use sawtooth_pbft.Service.{Call, Env}
use sawtooth_pbft.Node.{PbftNode, M, ◌>>=◌, ◌>>◌, get_state, modify_state, switch_to}
use sawtooth_pbft.Node.Keeps.{after}
use sawtooth_pbft.Handlers.{make_msg_info}
use sawtooth_pbft.Node.Broadcast.{make_msg_bytes, broadcast_message, broadcast_pbft_message}
use sawtooth_pbft.Node.Blocks.{validated_block, on_block_valid}
use sawtooth_pbft.Node.Voting.{
  with_vote, commit_votes, SendsNoVote, lift-SendsNoVote, >>=-SendsNoVote,
}

-- The one vote: it is for the working block, which the notice is about, the node is in the phase
-- Checking or already in Committing, and the message names its own view and sequence number.
pub record CastsVote (env : Env) (id : Bytes) (n k : PbftNode) : Type 0 where
  pub block : PbftBlock
  pub is_noticed : block.block_id ≡ id
  pub is_working : n.state.working_block ≡ some block
  pub in_phase : (n.state.phase ≡ PbftPhase.checking) ⊎ (n.state.phase ≡ PbftPhase.committing)
  pub one_vote :
      commit_votes k.calls
      ≡ make_msg_bytes env
          (make_msg_info PbftMessageType.commit n.state.view n.state.seq_num n.state.id)
          block
        ∷ commit_votes n.calls

-- No vote, or the one.
abbrev VotesOnce : Env → Bytes → PbftNode → PbftNode → Type 0
VotesOnce env id n k = (commit_votes k.calls ≡ commit_votes n.calls) ⊎ CastsVote env id n k

-- The phases in which `on_block_valid` lets a `Commit` through.
module _ (s : PbftState) where
  Follows-checking : {p : PbftPhase} → Follows p PbftPhase.committing → p ≡ PbftPhase.checking
  Follows-checking Follows.commits = refl

  commit_phase :
      (p : PbftPhase)
      → (PbftMessageType.commit == phase_msg_type p) ≡ true
      → p ≡ PbftPhase.committing
  unfolding phase_msg_type type_beq
  commit_phase PbftPhase.pre_preparing e = cc
  commit_phase PbftPhase.preparing e = cc
  commit_phase PbftPhase.checking e = cc
  commit_phase PbftPhase.committing e = refl
  commit_phase PbftPhase.finished e = cc

  sends_commit_in :
      (PbftMessageType.commit == check_msg_type (switch_to PbftPhase.committing s)) ≡ true
      → (s.phase ≡ PbftPhase.checking) ⊎ (s.phase ≡ PbftPhase.committing)
  unfolding switch_to check_msg_type
  sends_commit_in e = elim (switch_phase_lem PbftPhase.committing s) [
    | inl (follows, same) ↦ inl (Follows-checking follows)
    | inr (no_step, same) ↦ inr (
        commit_phase s.phase
          (subst (λ r. (PbftMessageType.commit == phase_msg_type r.0.phase) ≡ true) same e))
  ]

module _ (env : Env) (send : ParsedMessage → M (Unit {0}))
    (safe : (msg : ParsedMessage) → SendsNoVote (send msg)) where
  broadcast_message-votes :
      (bytes : Bytes) (n : PbftNode)
      → commit_votes (broadcast_message env send PbftMessageType.commit bytes n).1.calls
        ≡ bytes ∷ commit_votes n.calls
  unfolding broadcast_message commit_votes
  broadcast_message-votes bytes n =
      (>>=-SendsNoVote (lift-SendsNoVote (from_bytes env.codec bytes)) safe).at
        (record n { calls = Call.broadcast (type_name PbftMessageType.commit) bytes ∷ n.calls })
      ∙ counted
    where
      counted :
          with_vote (Call.broadcast (type_name PbftMessageType.commit) bytes) (commit_votes n.calls)
          ≡ bytes ∷ commit_votes n.calls
      counted = rw (==_refl (type_name PbftMessageType.commit)) refl

  broadcast_pbft_message-votes :
      (seq : ℕ) (block : PbftBlock) (n : PbftNode)
      → (commit_votes (broadcast_pbft_message env send seq PbftMessageType.commit block n).1.calls
          ≡ commit_votes n.calls)
        ⊎ (((PbftMessageType.commit == check_msg_type n.state) ≡ true)
            × (commit_votes
                  (broadcast_pbft_message env send seq PbftMessageType.commit block n).1.calls
                ≡ make_msg_bytes env
                    (make_msg_info PbftMessageType.commit n.state.view seq n.state.id)
                    block
                  ∷ commit_votes n.calls))
  unfolding broadcast_pbft_message is_multicast
  broadcast_pbft_message-votes seq block n =
      elim (Bool-cases (PbftMessageType.commit == check_msg_type n.state)) [
        | inl e ↦ inr (e, rw e (broadcast_message-votes _ n))
        | inr e ↦ inl (rw e refl)
      ]

  abbrev send_commit : PbftBlock → M (Unit {0})
  send_commit block = do
    modify_state (switch_to PbftPhase.committing)
    s ← get_state
    broadcast_pbft_message env send s.seq_num PbftMessageType.commit block

  switch_to-same :
      (n : PbftNode)
      → ((switch_to PbftPhase.committing n.state).view ≡ n.state.view)
        × ((switch_to PbftPhase.committing n.state).seq_num ≡ n.state.seq_num)
        × ((switch_to PbftPhase.committing n.state).id ≡ n.state.id)
  unfolding switch_to
  switch_to-same n = elim (switch_phase_lem PbftPhase.committing n.state) [
    | inl (follows, same) ↦
        (ap (λ r. r.0.view) same, ap (λ r. r.0.seq_num) same, ap (λ r. r.0.id) same)
    | inr (no_step, same) ↦
        (ap (λ r. r.0.view) same, ap (λ r. r.0.seq_num) same, ap (λ r. r.0.id) same)
  ]

  commit_bytes : PbftState → PbftBlock → Bytes
  commit_bytes s block =
      make_msg_bytes env (make_msg_info PbftMessageType.commit s.view s.seq_num s.id) block

  same_bytes :
      (n : PbftNode) (block : PbftBlock)
      → commit_bytes (switch_to PbftPhase.committing n.state) block ≡ commit_bytes n.state block
  unfolding commit_bytes
  same_bytes n block = let (v, q, i) = switch_to-same n in cc

  send_commit-VotesOnce :
      (b : PbftBlock) (n : PbftNode)
      → n.state.working_block ≡ some b
      → VotesOnce env b.block_id n (send_commit b n).1
  unfolding commit_bytes
  send_commit-VotesOnce b n working =
      elim (broadcast_pbft_message-votes (switch_to PbftPhase.committing n.state).seq_num b
        (record n { state = switch_to PbftPhase.committing n.state })) [
          | inl same ↦ inl same
          | inr (c, one) ↦ inr (record {
            block = b;
            is_noticed = refl;
            is_working = working;
            in_phase = sends_commit_in n.state c;
            one_vote = one ∙ ap (λ bytes. bytes ∷ commit_votes n.calls) (same_bytes n b);
          })
        ]

  -- At the notice that a block is valid.
  pub on_block_valid-VotesOnce :
      (id : Bytes) (n : PbftNode) → VotesOnce env id n (on_block_valid env send id n).1
  unfolding on_block_valid
  on_block_valid-VotesOnce id n = answered (Option-cases n.state.working_block)
    where
      answers :
          (r : Outcome PbftBlock)
          → validated_block id n.state ≡ r
          → VotesOnce env id n (after send_commit (r, n)).1
          → VotesOnce env id n (on_block_valid env send id n).1
      answers r e h = subst (λ r. VotesOnce env id n (after send_commit (r, n)).1) (sym e) h

      answered :
          (n.state.working_block ≡ none) ⊎ ((b : PbftBlock) × (n.state.working_block ≡ some b))
          → VotesOnce env id n (on_block_valid env send id n).1
      answered (inl e) =
          answers (err PbftError.no_working_block) (rw (validated_block, e) refl) (inl refl)
      answered (inr (b, e)) = elim (Bool-cases (b.block_id == id)) [
        | inl h ↦ answers (ok b) (rw (validated_block, e, h) refl) (
            subst (λ i. VotesOnce env i n (send_commit b n).1) ((==_iff b.block_id id).0 h)
              (send_commit-VotesOnce b n e))
        | inr h ↦
            answers (err PbftError.not_ready_for_message) (rw (validated_block, e, h) refl)
              (inl refl)
      ]
