-- ===== src/Node/NewBlock.antt =====
-- src/node.rs: `on_block_new` and `catchup`.
use sawtooth_pbft.Common.{
  ltb, if◌then◌else◌, first, ◌==◌, nat_eq, string_eq, bytes_eq, add64, ℕ, not, ◌&&◌, ◌||◌, Option,
  none, some, List, [], ◌∷◌,
}
use sawtooth_pbft.Protos.{
  PbftMessage, PbftSeal, Block, block_eq, info_eq, message_eq, seal_eq, view_change_eq,
}
use sawtooth_pbft.MessageType.{PbftMessageType, type_eq}
use sawtooth_pbft.Error.{PbftError, Outcome, ok, err, panic, out_of_fuel}
use sawtooth_pbft.Outcome.{or_panic, or_fail}
use sawtooth_pbft.ParsedMessage.{
  ParsedMessage, parsed_eq, info, get_block, from_pbft_message, as_msg_type,
}
use sawtooth_pbft.State.{PbftPhase, phase_eq, PbftState, is_primary}
use sawtooth_pbft.Log.{entry_eq, add_consensus_seal}
use sawtooth_pbft.Service.{Call, Env}
use sawtooth_pbft.Node.{
  M, ◌>>=◌, ◌>>◌, fail, lift, query_state, done, get_state, modify_state, modify_log, when, request,
  log_message,
}
use sawtooth_pbft.Handlers.{handle_commit, make_msg_info, pbft_block_from_block}
use sawtooth_pbft.Node.Broadcast.{broadcast_pbft_message, propose_view_change}
use sawtooth_pbft.Node.Votes.{seal_messages}
use sawtooth_pbft.Node.Seal.{verify_consensus_seal}
use sawtooth_pbft.Node.Blocks.{set_working_block, on_block_commit}

-- The first check of `catchup`.
unfoldable pub check_next : Block → PbftState → Outcome (Unit {0})
check_next block s = elim s.working_block [
  | none ↦ err PbftError.no_working_block
  | some working ↦
      if not (block.block_num == add64 working.block_num 1)
        || not (block.previous_id == working.block_id)
      then err (PbftError.block_mismatch (pbft_block_from_block block) working)
      else ok tt
]

-- `if view > state.view { state.view = view }`.
unfoldable pub raise_view : ℕ → PbftState → PbftState
raise_view view s = if ltb s.view view then record s { view = view } else s

-- `for message in &messages`.
unfoldable pub log_messages : List ParsedMessage → M (Unit {0})
log_messages [] = done
log_messages (m ∷ ms) = do log_message m; log_messages ms

abbrev pub set_phase : PbftPhase → PbftState → PbftState
set_phase p s = record s { phase = p }

-- `catchup`, from the messages of the seal on; `messages[0]` panics on an empty seal.
unfoldable pub catchup_with : Env → List ParsedMessage → M (Unit {0})
unfolding raise_view log_messages as_msg_type
catchup_with env messages = do
  msg ← lift (or_panic (first messages))
  modify_state (raise_view (info msg).view)
  log_messages messages
  modify_state (set_phase PbftPhase.committing)
  commit_msg ← lift (as_msg_type msg PbftMessageType.commit)
  handle_commit env commit_msg
  block ← lift (get_block msg)
  on_block_commit env block.block_id

unfoldable pub catchup : Env → Block → M (Unit {0})
unfolding check_next
catchup env block = do
  checked ← query_state (check_next block)
  seal ← lift (or_fail PbftError.serialization_error (env.codec.parse_seal block.payload))
  messages ← lift (seal_messages env.codec seal.previous_commit_votes)
  catchup_with env messages

-- The `BlockNew` message that a node makes for itself.
unfoldable pub block_new_message : PbftState → Block → PbftMessage
block_new_message s block = record {
  info = make_msg_info PbftMessageType.block_new s.view block.block_num s.id;
  block = pbft_block_from_block block;
}

module _ (env : Env) (send : ParsedMessage → M (Unit {0})) where
  -- The answer to a block whose seal is bad.
  unfoldable pub reject_block : Block → PbftError → M (Unit {0})
  reject_block block e = do
    failed ← request env (Call.fail_block block.block_id)
    if failed
        then (propose_view_change env send >> fail e)
        else fail (PbftError.internal_error "Couldn't fail block")

  -- The block is the one that the node waits for.
  unfoldable pub take_working_block : Block → M (Unit {0})
  take_working_block block = do
    modify_state (set_working_block (some (pbft_block_from_block block)))
    s ← get_state
    when (is_primary s) (
        broadcast_pbft_message env send s.seq_num PbftMessageType.pre_prepare
          (pbft_block_from_block block))

  -- `on_block_new`, once the seal is verified.
  unfoldable pub accept_block : Block → M (Unit {0})
  unfolding block_new_message take_working_block
  accept_block block = do
    s ← get_state
    msg ← lift (from_pbft_message env.codec (block_new_message s block))
    log_message msg
    if block.block_num == add64 s.seq_num 1 && not (s.phase == PbftPhase.finished)
        then catchup env block
        else when (block.block_num == s.seq_num) (take_working_block block)

  unfoldable pub keep_seal : Block → Option PbftSeal → M (Unit {0})
  keep_seal block none = done
  keep_seal block (some seal) = do
    s ← get_state
    modify_log (add_consensus_seal block.block_id s.seq_num seal)

  -- The `match` on the verified seal.
  unfoldable pub answer_seal : Block → Outcome (Option PbftSeal) → M (Unit {0})
  answer_seal block (ok seal) = keep_seal block seal >> accept_block block
  answer_seal block (err e) = reject_block block e
  answer_seal block panic = lift panic
  answer_seal block out_of_fuel = lift out_of_fuel

  unfoldable pub verify_and_accept : Block → M (Unit {0})
  unfolding answer_seal
  verify_and_accept block n =
      let (r, k) = verify_consensus_seal env block n in answer_seal block r k

  unfoldable pub on_block_new : Block → M (Unit {0})
  on_block_new block = do
    s ← get_state
    if ltb block.block_num s.seq_num then done else verify_and_accept block
