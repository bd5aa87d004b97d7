-- ===== src/Node/Peer.antt =====
-- src/node.rs: `on_peer_message`. A node handles its own messages by a nested call; the model bounds
-- the nesting by fuel.
use sawtooth_pbft.Common.{
  ltb, if◌then◌else◌, ◌==◌, nat_eq, string_eq, bytes_eq, add64, ℕ, zero, suc, Bool, true, false,
  not, ◌&&◌, [], ◌∷◌,
}
use sawtooth_pbft.MessageType.{PbftMessageType, type_eq, from_str}
use sawtooth_pbft.Error.{PbftError, Outcome, ok, err, panic, out_of_fuel}
use sawtooth_pbft.ParsedMessage.{ParsedMessage, parsed_eq, info, get_block}
use sawtooth_pbft.State.{PbftPhase, phase_eq, is_view_changing}
use sawtooth_pbft.Log.{
  entry_eq, log_has_required_msgs, check_prepared, check_committable, push_backlog,
}
use sawtooth_pbft.Service.{Call, Env}
use sawtooth_pbft.Node.{
  M, ◌>>=◌, ◌>>◌, pure, fail, lift, query_log, done, get_state, modify_state, modify_log, when,
  request, log_message, switch_to,
}
use sawtooth_pbft.Handlers.{handle_pre_prepare, handle_commit, handle_view_change}
use sawtooth_pbft.Node.Broadcast.{broadcast_pbft_message, propose_view_change}
use sawtooth_pbft.Protos.{block_eq, info_eq, message_eq, seal_eq, view_change_eq}

unfoldable pub check_blocks_if_not_checking : Env → ParsedMessage → M (Unit {0})
unfolding switch_to get_block
check_blocks_if_not_checking env msg = do
  s ← get_state
  if s.phase == PbftPhase.checking then done else do
    modify_state (switch_to PbftPhase.checking)
    block ← lift (get_block msg)
    checked ← request env (Call.check_blocks (block.block_id ∷ []))
    if checked then done else fail (PbftError.internal_error "Failed to check blocks")

unfoldable pub commit_block_if_committing : Env → ParsedMessage → M (Unit {0})
unfolding handle_commit
commit_block_if_committing env msg = do
  s ← get_state
  if s.phase == PbftPhase.committing then handle_commit env msg else done

-- The answers of `on_peer_message` to an error of the `PrePrepare` handler.
unfoldable pub on_pre_prepare_error : ParsedMessage → PbftError → M (Unit {0})
on_pre_prepare_error msg PbftError.no_block_new = modify_log (push_backlog msg)
on_pre_prepare_error msg PbftError.serialization_error = fail PbftError.serialization_error
on_pre_prepare_error msg e = fail e

-- A `Prepare` that was logged starts the check of the block if it is for the current sequence number
-- and the node is prepared.
unfoldable pub check_if_prepared : Env → ParsedMessage → M (Unit {0})
check_if_prepared env msg = do
  s ← get_state
  if not ((info msg).seq_num == s.seq_num) then done else do
    prepared ← query_log (check_prepared (info msg) s.f)
    when prepared (check_blocks_if_not_checking env msg)

unfoldable pub on_prepare : Env → ParsedMessage → M (Unit {0})
on_prepare env msg = do log_message msg; check_if_prepared env msg

-- A `Commit` that was logged commits the block if it is for the current sequence number and the log
-- has what is needed.
unfoldable pub commit_if_committable : Env → ParsedMessage → M (Unit {0})
commit_if_committable env msg = do
  s ← get_state
  if not ((info msg).seq_num == s.seq_num) then done else do
    committable ← query_log (check_committable (info msg) s.f)
    when committable (commit_block_if_committing env msg)

unfoldable pub on_commit : Env → ParsedMessage → M (Unit {0})
on_commit env msg = do log_message msg; commit_if_committable env msg

module _ (env : Env) (send : ParsedMessage → M (Unit {0})) where
  unfoldable pub broadcast_pre_prepare : ParsedMessage → M (Unit {0})
  broadcast_pre_prepare msg = do
    block ← lift (get_block msg)
    broadcast_pbft_message env send (info msg).seq_num PbftMessageType.prepare block

  -- The `match` on what the `PrePrepare` handler returns.
  unfoldable pub answer_pre_prepare : ParsedMessage → Outcome (Unit {0}) → M (Unit {0})
  unfolding on_pre_prepare_error
  answer_pre_prepare msg (ok _) = broadcast_pre_prepare msg
  answer_pre_prepare msg (err e) = on_pre_prepare_error msg e
  answer_pre_prepare msg panic = lift panic
  answer_pre_prepare msg out_of_fuel = lift out_of_fuel

  unfoldable pub on_pre_prepare : ParsedMessage → M (Unit {0})
  unfolding answer_pre_prepare
  on_pre_prepare msg n = let (r, k) = handle_pre_prepare env msg n in answer_pre_prepare msg r k

  -- Whether the caller is to stop: the answer is `true` where there are too few messages.
  unfoldable pub propose_view_change_if_enough_messages : ParsedMessage → M Bool
  propose_view_change_if_enough_messages msg = do
    s ← get_state
    if is_view_changing s.mode then pure false else do
      has ← query_log (log_has_required_msgs PbftMessageType.view_change msg false (add64 s.f 1))
      if has && ltb s.view (info msg).view
          then propose_view_change env send >> pure false
          else pure true

  unfoldable pub join_view_change : ParsedMessage → M (Unit {0})
  join_view_change msg = do
    stopped ← propose_view_change_if_enough_messages msg
    if stopped then done else handle_view_change env msg

  unfoldable pub on_view_change : ParsedMessage → M (Unit {0})
  on_view_change msg = do log_message msg; join_view_change msg

  -- The `match` of `on_peer_message`.
  unfoldable pub dispatch : PbftMessageType → ParsedMessage → M (Unit {0})
  dispatch PbftMessageType.pre_prepare msg = on_pre_prepare msg
  dispatch PbftMessageType.prepare msg = on_prepare env msg
  dispatch PbftMessageType.commit msg = on_commit env msg
  dispatch PbftMessageType.view_change msg = on_view_change msg
  dispatch PbftMessageType.block_new msg = done
  dispatch PbftMessageType.unset msg = done

  unfoldable pub on_peer_body : ParsedMessage → M (Unit {0})
  unfolding dispatch
  on_peer_body msg = dispatch (from_str (info msg).msg_type) msg

-- `on_peer_message`, for messages nested less than `fuel` deep.
unfoldable pub on_peer_message : Env → ℕ → ParsedMessage → M (Unit {0})
on_peer_message env zero msg = lift out_of_fuel
on_peer_message env (suc fuel) msg = on_peer_body env (on_peer_message env fuel) msg
