-- ===== src/Node/Framed.antt =====
-- Handling a message of a peer leaves the identity, the sequence number and the peers of a node alone.
use sawtooth_pbft.Common.{Bytes, ℕ, zero, suc, Option, none, some}
use sawtooth_pbft.Protos.{PbftBlock, PbftSeal}
use sawtooth_pbft.MessageType.{PbftMessageType, from_str}
use sawtooth_pbft.Error.{PbftError, Outcome, ok, err, panic, out_of_fuel}
use sawtooth_pbft.ParsedMessage.{ParsedMessage, info, get_block}
use sawtooth_pbft.State.{PbftState}
use sawtooth_pbft.Log.{push_backlog}
use sawtooth_pbft.Service.{Env}
use sawtooth_pbft.Node.{PbftNode, M}
use sawtooth_pbft.Handlers.{
  check_existing, enter_preparing, accept_pre_prepare, handle_pre_prepare, handle_commit,
  ignore_working_block, become_primary, become_secondary, take_role,
  check_received_enough_view_changes, adopt_view, handle_view_change,
}
use sawtooth_pbft.Node.Broadcast.{
  broadcast_message, broadcast_pbft_message, send_view_change, propose_view_change,
}
use sawtooth_pbft.Node.Peer.{
  check_blocks_if_not_checking, commit_block_if_committing, on_pre_prepare_error, check_if_prepared,
  on_prepare, commit_if_committable, on_commit, broadcast_pre_prepare, answer_pre_prepare,
  on_pre_prepare, propose_view_change_if_enough_messages, join_view_change, on_view_change,
  dispatch, on_peer_body, on_peer_message,
}
use sawtooth_pbft.Node.Frame.{
  SameBase, LeavesBase, fail-LeavesBase, lift-LeavesBase, >>=-LeavesBase, done-LeavesBase,
  modify_log-LeavesBase, log_message-LeavesBase, match-LeavesBase, base_rules,
}

module _ (env : Env) where
  pub handle_commit-LeavesBase : (msg : ParsedMessage) → LeavesBase (handle_commit env msg)
  unfolding handle_commit
  handle_commit-LeavesBase msg = search base_rules depth 12

  check_if_prepared-LeavesBase : (msg : ParsedMessage) → LeavesBase (check_if_prepared env msg)
  unfolding check_if_prepared check_blocks_if_not_checking
  check_if_prepared-LeavesBase msg = search base_rules depth 12

  commit_if_committable-LeavesBase :
      (msg : ParsedMessage) → LeavesBase (commit_if_committable env msg)
  unfolding commit_if_committable commit_block_if_committing
  commit_if_committable-LeavesBase msg = search (base_rules, handle_commit-LeavesBase) depth 12

  ignore_working_block-LeavesBase : (b : Option PbftBlock) → LeavesBase (ignore_working_block env b)
  unfolding ignore_working_block
  ignore_working_block-LeavesBase none = search base_rules depth 12
  ignore_working_block-LeavesBase (some b) = search base_rules depth 12

  take_role-LeavesBase : LeavesBase (take_role env)
  unfolding take_role become_primary become_secondary
  take_role-LeavesBase = search (base_rules, ignore_working_block-LeavesBase) depth 12

  handle_view_change-LeavesBase : (msg : ParsedMessage) → LeavesBase (handle_view_change env msg)
  unfolding handle_view_change check_received_enough_view_changes adopt_view
  handle_view_change-LeavesBase msg = search (base_rules, take_role-LeavesBase) depth 12

  pub check_existing-LeavesBase :
      (msg : ParsedMessage) (p : Option ParsedMessage) → LeavesBase (check_existing msg p)
  unfolding check_existing
  check_existing-LeavesBase msg none = done-LeavesBase
  check_existing-LeavesBase msg (some p) = search base_rules depth 12

  handle_pre_prepare-LeavesBase : (msg : ParsedMessage) → LeavesBase (handle_pre_prepare env msg)
  unfolding handle_pre_prepare accept_pre_prepare enter_preparing
  handle_pre_prepare-LeavesBase msg = search (base_rules, check_existing-LeavesBase) depth 16

module _ (env : Env) (send : ParsedMessage → M (Unit {0}))
    (safe : (msg : ParsedMessage) → LeavesBase (send msg)) where
  broadcast_message-LeavesBase :
      (t : PbftMessageType) (bytes : Bytes) → LeavesBase (broadcast_message env send t bytes)
  unfolding broadcast_message
  broadcast_message-LeavesBase t bytes = search (base_rules, safe) depth 12

  pub broadcast_pbft_message-LeavesBase :
      (seq : ℕ) (t : PbftMessageType) (block : PbftBlock)
      → LeavesBase (broadcast_pbft_message env send seq t block)
  unfolding broadcast_pbft_message
  broadcast_pbft_message-LeavesBase seq t block =
      search (base_rules, broadcast_message-LeavesBase) depth 12

  send_view_change-LeavesBase :
      (s : PbftState) (seal : PbftSeal) → LeavesBase (send_view_change env send s seal)
  unfolding send_view_change
  send_view_change-LeavesBase s seal = search (base_rules, broadcast_message-LeavesBase) depth 12

  pub propose_view_change-LeavesBase : LeavesBase (propose_view_change env send)
  unfolding propose_view_change
  propose_view_change-LeavesBase = search (base_rules, send_view_change-LeavesBase) depth 12

  join_view_change-LeavesBase : (msg : ParsedMessage) → LeavesBase (join_view_change env send msg)
  unfolding join_view_change propose_view_change_if_enough_messages
  join_view_change-LeavesBase msg =
      search (base_rules, propose_view_change-LeavesBase, handle_view_change-LeavesBase) depth 12

  answer_pre_prepare-LeavesBase :
      (msg : ParsedMessage) (r : Outcome (Unit {0}))
      → LeavesBase (answer_pre_prepare env send msg r)
  unfolding answer_pre_prepare broadcast_pre_prepare on_pre_prepare_error
  answer_pre_prepare-LeavesBase msg (ok _) =
      >>=-LeavesBase (lift-LeavesBase (get_block msg))
        (broadcast_pbft_message-LeavesBase (info msg).seq_num PbftMessageType.prepare)
  answer_pre_prepare-LeavesBase msg (err PbftError.no_block_new) =
      modify_log-LeavesBase (push_backlog msg)
  answer_pre_prepare-LeavesBase msg (err x) = fail-LeavesBase _
  answer_pre_prepare-LeavesBase msg panic = lift-LeavesBase panic
  answer_pre_prepare-LeavesBase msg out_of_fuel = lift-LeavesBase out_of_fuel

  dispatch-LeavesBase :
      (t : PbftMessageType) (msg : ParsedMessage) → LeavesBase (dispatch env send t msg)
  unfolding dispatch on_pre_prepare on_prepare on_commit on_view_change
  dispatch-LeavesBase PbftMessageType.pre_prepare msg =
      match-LeavesBase (handle_pre_prepare env msg) (answer_pre_prepare env send msg)
        (handle_pre_prepare-LeavesBase env msg) (answer_pre_prepare-LeavesBase msg)
  dispatch-LeavesBase PbftMessageType.prepare msg =
      >>=-LeavesBase (log_message-LeavesBase msg) (λ _. check_if_prepared-LeavesBase env msg)
  dispatch-LeavesBase PbftMessageType.commit msg =
      >>=-LeavesBase (log_message-LeavesBase msg) (λ _. commit_if_committable-LeavesBase env msg)
  dispatch-LeavesBase PbftMessageType.view_change msg =
      >>=-LeavesBase (log_message-LeavesBase msg) (λ _. join_view_change-LeavesBase msg)
  dispatch-LeavesBase PbftMessageType.block_new msg = done-LeavesBase
  dispatch-LeavesBase PbftMessageType.unset msg = done-LeavesBase

pub on_peer_message-LeavesBase :
    (env : Env) (fuel : ℕ) (msg : ParsedMessage) → LeavesBase (on_peer_message env fuel msg)
unfolding on_peer_message on_peer_body
on_peer_message-LeavesBase env zero msg = lift-LeavesBase out_of_fuel
on_peer_message-LeavesBase env (suc fuel) msg =
    dispatch-LeavesBase env (on_peer_message env fuel) (on_peer_message-LeavesBase env fuel)
      (from_str (info msg).msg_type) msg

-- Whatever a message of a peer says and however it is answered, with all the messages that the node
-- then sends to itself: the node's ID, its sequence number, its peers and the number of faults that it
-- counts on stay as they are.
pub on_peer_message-SameBase :
    (env : Env) (fuel : ℕ) (msg : ParsedMessage) (n : PbftNode)
    → SameBase n.state (on_peer_message env fuel msg n).1.state
on_peer_message-SameBase env fuel msg = (on_peer_message-LeavesBase env fuel msg).at
