-- ===== src/Engine/Steps.antt =====
-- Each update makes at most one step of the sequence number.
use sawtooth_pbft.Common.{
  ltb, ◌==◌, nat_eq, string_eq, Bytes, bytes_eq, add64, ℕ, subst, true, false, not, ◌&&◌, Option,
  none, some,
}
use sawtooth_pbft.Protos.{PbftSeal, Block, block_eq, info_eq, message_eq, seal_eq, view_change_eq}
use sawtooth_pbft.MessageType.{PbftMessageType, type_eq}
use sawtooth_pbft.Error.{PbftError, Outcome, ok, err, panic, out_of_fuel}
use sawtooth_pbft.ParsedMessage.{ParsedMessage, parsed_eq, from_pbft_message, from_peer_message}
use sawtooth_pbft.State.{PbftPhase, phase_eq, is_primary}
use sawtooth_pbft.Log.{entry_eq, add_consensus_seal}
use sawtooth_pbft.Service.{Call, Env}
use sawtooth_pbft.Node.{PbftNode, M, ◌>>◌, fail, done, when}
use sawtooth_pbft.Handlers.{pbft_block_from_block}
use sawtooth_pbft.Node.Broadcast.{broadcast_pbft_message, propose_view_change}
use sawtooth_pbft.Node.Peer.{on_peer_message}
use sawtooth_pbft.Node.Seal.{verify_consensus_seal}
use sawtooth_pbft.Node.Blocks.{set_working_block, on_block_valid}
use sawtooth_pbft.Node.NewBlock.{
  catchup, block_new_message, reject_block, take_working_block, accept_block, keep_seal,
  answer_seal, verify_and_accept, on_block_new,
}
use sawtooth_pbft.Node.Frame.{
  LeavesBase, pure-LeavesBase, fail-LeavesBase, lift-LeavesBase, >>=-LeavesBase, if-LeavesBase,
  done-LeavesBase, get_state-LeavesBase, modify_state-LeavesBase, modify_log-LeavesBase,
  request-LeavesBase, log_message-LeavesBase, base_rules,
}
use sawtooth_pbft.Node.Framed.{
  broadcast_pbft_message-LeavesBase, propose_view_change-LeavesBase, on_peer_message-LeavesBase,
}
use sawtooth_pbft.Engine.{Update, receive, handle_update}
use sawtooth_pbft.Engine.Sequence.{
  OneStep, StepsOnce, LeavesBase-StepsOnce, behind-StepsOnce, before-StepsOnce, if-StepsOnce,
  verify_consensus_seal-LeavesBase, on_block_commit-StepsOnce, set_working_block-KeepsBase,
  catchup-StepsOnce,
}

module _ (env : Env) (send : ParsedMessage → M (Unit {0}))
    (safe : (msg : ParsedMessage) → LeavesBase (send msg)) where
  take_working_block-LeavesBase : (block : Block) → LeavesBase (take_working_block env send block)
  unfolding take_working_block
  take_working_block-LeavesBase block =
      >>=-LeavesBase
        (modify_state-LeavesBase (set_working_block (some (pbft_block_from_block block)))
          (set_working_block-KeepsBase env (some (pbft_block_from_block block))))
        (λ _. >>=-LeavesBase get_state-LeavesBase (λ s.
          if-LeavesBase (is_primary s)
            (broadcast_pbft_message env send s.seq_num PbftMessageType.pre_prepare
              (pbft_block_from_block block))
            done
            (broadcast_pbft_message-LeavesBase env send safe s.seq_num PbftMessageType.pre_prepare
              (pbft_block_from_block block))
            done-LeavesBase))

  keep_seal-LeavesBase :
      (block : Block) (seal : Option PbftSeal) → LeavesBase (keep_seal env send block seal)
  unfolding keep_seal
  keep_seal-LeavesBase block none = done-LeavesBase
  keep_seal-LeavesBase block (some seal) =
      >>=-LeavesBase get_state-LeavesBase
        (λ s. modify_log-LeavesBase (add_consensus_seal block.block_id s.seq_num seal))

  accept_block-StepsOnce : (block : Block) → StepsOnce (accept_block env send block)
  unfolding accept_block
  accept_block-StepsOnce block = behind-StepsOnce get_state-LeavesBase (λ s.
      behind-StepsOnce (lift-LeavesBase (from_pbft_message env.codec (block_new_message s block)))
        (λ msg. behind-StepsOnce (log_message-LeavesBase msg) (λ _.
          if-StepsOnce (block.block_num == add64 s.seq_num 1 && not (s.phase == PbftPhase.finished))
            (catchup env block)
            (when (block.block_num == s.seq_num) (take_working_block env send block))
            (catchup-StepsOnce env block)
            (LeavesBase-StepsOnce (
              if-LeavesBase (block.block_num == s.seq_num) (take_working_block env send block) done
                (take_working_block-LeavesBase block) done-LeavesBase)))))

  reject_block-LeavesBase :
      (block : Block) (e : PbftError) → LeavesBase (reject_block env send block e)
  unfolding reject_block
  reject_block-LeavesBase block e =
      >>=-LeavesBase (request-LeavesBase env (Call.fail_block block.block_id)) (λ failed.
        if-LeavesBase failed (propose_view_change env send >> fail e)
          (fail (PbftError.internal_error "Couldn't fail block"))
          (>>=-LeavesBase (propose_view_change-LeavesBase env send safe) (λ _. fail-LeavesBase e))
          (fail-LeavesBase (PbftError.internal_error "Couldn't fail block")))

  answer_seal-StepsOnce :
      (block : Block) (r : Outcome (Option PbftSeal)) → StepsOnce (answer_seal env send block r)
  unfolding answer_seal
  answer_seal-StepsOnce block (ok seal) =
      behind-StepsOnce (keep_seal-LeavesBase block seal) (λ _. accept_block-StepsOnce block)
  answer_seal-StepsOnce block (err e) = LeavesBase-StepsOnce (reject_block-LeavesBase block e)
  answer_seal-StepsOnce block panic = LeavesBase-StepsOnce (lift-LeavesBase panic)
  answer_seal-StepsOnce block out_of_fuel = LeavesBase-StepsOnce (lift-LeavesBase out_of_fuel)

  verify_and_accept-StepsOnce : (block : Block) → StepsOnce (verify_and_accept env send block)
  unfolding verify_and_accept
  verify_and_accept-StepsOnce block = record {
    at = λ n.
        subst
          (λ q.
            OneStep q
              (answer_seal env send block (verify_consensus_seal env block n).0
                (verify_consensus_seal env block n).1).1.state.seq_num)
          ((verify_consensus_seal-LeavesBase env block).at n).same_seq
          ((answer_seal-StepsOnce block (verify_consensus_seal env block n).0).at
            (verify_consensus_seal env block n).1);
  }

  on_block_new-StepsOnce : (block : Block) → StepsOnce (on_block_new env send block)
  unfolding on_block_new
  on_block_new-StepsOnce block = behind-StepsOnce get_state-LeavesBase (λ s.
      if-StepsOnce (ltb block.block_num s.seq_num) done (verify_and_accept env send block)
        (LeavesBase-StepsOnce done-LeavesBase) (verify_and_accept-StepsOnce block))

  on_block_valid-LeavesBase : (id : Bytes) → LeavesBase (on_block_valid env send id)
  unfolding on_block_valid
  on_block_valid-LeavesBase id =
      search (base_rules, broadcast_pbft_message-LeavesBase env send safe) depth 12

  receive-LeavesBase :
      (msg : ParsedMessage) (sender : Bytes) → LeavesBase (receive env send msg sender)
  unfolding receive
  receive-LeavesBase msg sender = search (base_rules, safe) depth 12

  handle_update-StepsOnce : (u : Update) → StepsOnce (handle_update env send u)
  unfolding handle_update
  handle_update-StepsOnce (Update.block_new block) =
      before-StepsOnce (on_block_new-StepsOnce block) (λ _. pure-LeavesBase true)
  handle_update-StepsOnce (Update.block_valid id) =
      LeavesBase-StepsOnce
        (>>=-LeavesBase (on_block_valid-LeavesBase id) (λ _. pure-LeavesBase true))
  handle_update-StepsOnce (Update.block_invalid id) =
      LeavesBase-StepsOnce
        (>>=-LeavesBase (propose_view_change-LeavesBase env send safe) (λ _. pure-LeavesBase true))
  handle_update-StepsOnce (Update.block_commit id) =
      before-StepsOnce (on_block_commit-StepsOnce env id) (λ _. pure-LeavesBase true)
  handle_update-StepsOnce (Update.peer_message m sender) = LeavesBase-StepsOnce (
      >>=-LeavesBase (lift-LeavesBase (from_peer_message env.codec m false))
        (λ msg. receive-LeavesBase msg sender))
  handle_update-StepsOnce Update.peer_connected = LeavesBase-StepsOnce (pure-LeavesBase true)
  handle_update-StepsOnce (Update.peer_disconnected id) =
      LeavesBase-StepsOnce (pure-LeavesBase true)
  handle_update-StepsOnce Update.shutdown = LeavesBase-StepsOnce (pure-LeavesBase false)
  handle_update-StepsOnce Update.timed_out =
      LeavesBase-StepsOnce (fail-LeavesBase PbftError.timeout)
  handle_update-StepsOnce Update.disconnected = LeavesBase-StepsOnce (pure-LeavesBase false)

-- No update takes a node back or more than one step ahead: whatever it says and however it is answered,
-- afterwards the sequence number is the one before, or the next one, in the arithmetic of 64 bits.
pub handle_update-OneStep :
    (env : Env) (fuel : ℕ) (u : Update) (n : PbftNode)
    → OneStep n.state.seq_num (handle_update env (on_peer_message env fuel) u n).1.state.seq_num
handle_update-OneStep env fuel u =
    (handle_update-StepsOnce env (on_peer_message env fuel) (on_peer_message-LeavesBase env fuel)
      u).at
