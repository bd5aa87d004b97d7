-- ===== src/Node/Replaced.antt =====
-- A second block at the height that the node waits for.
use sawtooth_pbft.Common.{
  Bool-cases, ◌==◌, ==_iff, ==_refl, nat_eq, string_eq, Bytes, bytes_eq, ◌≡◌, refl, ap, ◌∙◌, ◌≢◌,
  inl, inr, false, Option, some,
}
use sawtooth_pbft.Protos.{
  PbftBlock, PbftSeal, Block, block_eq, info_eq, message_eq, seal_eq, view_change_eq,
}
use sawtooth_pbft.Error.{PbftError, ok, err}
use sawtooth_pbft.Service.{Env}
use sawtooth_pbft.Node.{PbftNode, M, ◌>>=◌, ◌>>◌, get_state, modify_state, switch_to}
use sawtooth_pbft.Node.Keeps.{after}
use sawtooth_pbft.Node.Seal.{verify_consensus_seal}
use sawtooth_pbft.MessageType.{PbftMessageType, type_beq, type_eq, is_multicast}
use sawtooth_pbft.ParsedMessage.{ParsedMessage, parsed_eq}
use sawtooth_pbft.State.{PbftPhase, phase_eq, PbftState, check_msg_type, is_primary}
use sawtooth_pbft.Log.{entry_eq}
use sawtooth_pbft.Handlers.{make_msg_info, pbft_block_from_block}
use sawtooth_pbft.Node.NewBlock.{block_new_message, on_block_new}
use sawtooth_pbft.Node.Broadcast.{make_msg_bytes, broadcast_message, broadcast_pbft_message}
use sawtooth_pbft.Node.Blocks.{validated_block, on_block_valid}
use sawtooth_pbft.State.Phases.{Follows, switch_phase_lem}
use sawtooth_pbft.Node.Replacing.{on_block_new-replaces}

-- The phase after Committing is not Committing.
switch_to-stays :
    (s : PbftState) → s.phase ≡ PbftPhase.committing → switch_to PbftPhase.committing s ≡ s
unfolding switch_to
switch_to-stays s e = elim (switch_phase_lem PbftPhase.committing s) [
  | inl (follows, same) ↦ absurd (no_loop e follows)
  | inr (no_step, same) ↦ ap (λ r. r.0) same
]
  where
    no_loop : {p : PbftPhase} → p ≡ PbftPhase.committing → Follows p PbftPhase.committing → ⊥
    no_loop e Follows.commits = cc

module _ (env : Env) (send : ParsedMessage → M (Unit {0})) (b : PbftBlock) (m : PbftNode)
    (working : m.state.working_block ≡ some b) where
  abbrev send_commit : PbftBlock → M (Unit {0})
  send_commit block = do
    modify_state (switch_to PbftPhase.committing)
    s ← get_state
    broadcast_pbft_message env send s.seq_num PbftMessageType.commit block

  on_block_valid-other :
      (id : Bytes)
      → b.block_id ≢ id
      → on_block_valid env send id m ≡ (err PbftError.not_ready_for_message, m)
  unfolding on_block_valid
  on_block_valid-other id ne = ap (λ r. after send_commit (r, m)) refused
    where
      refused : validated_block id m.state ≡ err PbftError.not_ready_for_message
      refused = elim (Bool-cases (b.block_id == id)) [
        | inl e ↦ absurd (ne ((==_iff b.block_id id).0 e))
        | inr e ↦ rw (validated_block, working, e) refl
      ]

  sends :
      m.state.phase ≡ PbftPhase.committing
      → broadcast_pbft_message env send m.state.seq_num PbftMessageType.commit b m
        ≡ broadcast_message env send PbftMessageType.commit
            (make_msg_bytes env
              (make_msg_info PbftMessageType.commit m.state.view m.state.seq_num m.state.id)
              b)
            m
  unfolding broadcast_pbft_message is_multicast type_beq
  sends committing = rw (check_msg_type, committing) refl

  on_block_valid-votes :
      m.state.phase ≡ PbftPhase.committing
      → on_block_valid env send b.block_id m
        ≡ broadcast_message env send PbftMessageType.commit
            (make_msg_bytes env
              (make_msg_info PbftMessageType.commit m.state.view m.state.seq_num m.state.id)
              b)
            m
  unfolding on_block_valid
  on_block_valid-votes committing =
      ap (λ r. after send_commit (r, m)) accepted
      ∙ ap
          (λ st.
            broadcast_pbft_message env send st.seq_num PbftMessageType.commit b
              (record m { state = st }))
          (switch_to-stays m.state committing)
      ∙ sends committing
    where
      accepted : validated_block b.block_id m.state ≡ ok b
      accepted = rw (validated_block, working, ==_refl b.block_id) refl

-- A secondary in the phase Committing, which has sent its `Commit` for one block, takes any other
-- block that arrives for its sequence number with a seal that verifies as its working block, and keeps
-- the rest of its state. Then it refuses the notice that any other block is valid, and at the notice
-- that the new one is, it sends a `Commit` for that one in the same view and sequence number.
pub on_block_new-on_block_valid :
    (env : Env) (send : ParsedMessage → M (Unit {0})) (block : Block) (bytes : Bytes) (n : PbftNode)
    (seal : Option PbftSeal)
    → block.block_num ≡ n.state.seq_num
    → is_primary n.state ≡ false
    → n.state.phase ≡ PbftPhase.committing
    → env.codec.write_message (block_new_message n.state block) ≡ some bytes
    → (verify_consensus_seal env block n).0 ≡ ok seal
    → ((on_block_new env send block n).1.state
        ≡ record n.state { working_block = some (pbft_block_from_block block) })
      × ((id : Bytes)
          → block.block_id ≢ id
          → on_block_valid env send id (on_block_new env send block n).1
            ≡ (err PbftError.not_ready_for_message, (on_block_new env send block n).1))
      × (on_block_valid env send block.block_id (on_block_new env send block n).1
          ≡ broadcast_message env send PbftMessageType.commit
              (make_msg_bytes env
                (make_msg_info PbftMessageType.commit n.state.view n.state.seq_num n.state.id)
                (pbft_block_from_block block))
              (on_block_new env send block n).1)
unfolding pbft_block_from_block
on_block_new-on_block_valid env send block bytes n seal at_height secondary committing writes
      sealed =
    let m = (on_block_new env send block n).1 in
    let b = pbft_block_from_block block in
    let state =
      on_block_new-replaces env send block bytes n seal at_height secondary writes sealed in
    let working : m.state.working_block ≡ some b = ap (λ s. s.working_block) state in
    (
      state,
      λ id ne. on_block_valid-other env send b m working id ne,
      on_block_valid-votes env send b m working (ap (λ s. s.phase) state ∙ committing)
          ∙ ap
              (λ s.
                broadcast_message env send PbftMessageType.commit
                  (make_msg_bytes env (make_msg_info PbftMessageType.commit s.view s.seq_num s.id)
                    b)
                  m)
              state,
    )
