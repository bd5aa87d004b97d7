-- ===== src/Node/Voted.antt =====
-- Handling a message of a peer sends no vote to commit.
use sawtooth_pbft.Common.{
  ◌==◌, nat_eq, string_eq, Bytes, bytes_eq, ℕ, zero, suc, ◌≢◌, not, ◌&&◌, Option, none, some,
}
use sawtooth_pbft.Protos.{
  PbftBlock, PbftSeal, block_eq, info_eq, message_eq, seal_eq, view_change_eq,
}
use sawtooth_pbft.MessageType.{PbftMessageType, type_eq, is_multicast, from_str}
use sawtooth_pbft.Error.{PbftError, Outcome, ok, err, panic, out_of_fuel}
use sawtooth_pbft.Outcome.{or_fail}
use sawtooth_pbft.ParsedMessage.{ParsedMessage, parsed_eq, info, get_block}
use sawtooth_pbft.State.{phase_eq, PbftState, check_msg_type}
use sawtooth_pbft.Log.{entry_eq, push_backlog}
use sawtooth_pbft.Service.{Env}
use sawtooth_pbft.Node.{M, done}
use sawtooth_pbft.Handlers.{
  check_existing, enter_preparing, accept_pre_prepare, handle_pre_prepare, handle_commit,
  ignore_working_block, become_primary, become_secondary, take_role,
  check_received_enough_view_changes, adopt_view, handle_view_change, make_msg_info,
}
use sawtooth_pbft.Node.Broadcast.{
  make_msg_bytes, view_change_message, broadcast_message, broadcast_pbft_message, send_view_change,
  propose_view_change,
}
use sawtooth_pbft.Node.Peer.{
  check_blocks_if_not_checking, commit_block_if_committing, on_pre_prepare_error, check_if_prepared,
  on_prepare, commit_if_committable, on_commit, broadcast_pre_prepare, answer_pre_prepare,
  on_pre_prepare, propose_view_change_if_enough_messages, join_view_change, on_view_change,
  dispatch, on_peer_body, on_peer_message,
}
use sawtooth_pbft.Node.Voting.{
  broadcast-IsNoVote, SendsNoVote, fail-SendsNoVote, lift-SendsNoVote, >>=-SendsNoVote,
  if-SendsNoVote, match-SendsNoVote, done-SendsNoVote, get_state-SendsNoVote,
  modify_log-SendsNoVote, log_message-SendsNoVote, vote_rules,
}

module _ (env : Env) where
  pub handle_commit-SendsNoVote : (msg : ParsedMessage) → SendsNoVote (handle_commit env msg)
  unfolding handle_commit
  handle_commit-SendsNoVote msg = search vote_rules depth 12

  check_if_prepared-SendsNoVote : (msg : ParsedMessage) → SendsNoVote (check_if_prepared env msg)
  unfolding check_if_prepared check_blocks_if_not_checking
  check_if_prepared-SendsNoVote msg = search vote_rules depth 12

  commit_if_committable-SendsNoVote :
      (msg : ParsedMessage) → SendsNoVote (commit_if_committable env msg)
  unfolding commit_if_committable commit_block_if_committing
  commit_if_committable-SendsNoVote msg = search (vote_rules, handle_commit-SendsNoVote) depth 12

  ignore_working_block-SendsNoVote :
      (b : Option PbftBlock) → SendsNoVote (ignore_working_block env b)
  unfolding ignore_working_block
  ignore_working_block-SendsNoVote none = search vote_rules depth 12
  ignore_working_block-SendsNoVote (some b) = search vote_rules depth 12

  pub take_role-SendsNoVote : SendsNoVote (take_role env)
  unfolding take_role become_primary become_secondary
  take_role-SendsNoVote = search (vote_rules, ignore_working_block-SendsNoVote) depth 12

  handle_view_change-SendsNoVote : (msg : ParsedMessage) → SendsNoVote (handle_view_change env msg)
  unfolding handle_view_change check_received_enough_view_changes adopt_view
  handle_view_change-SendsNoVote msg = search (vote_rules, take_role-SendsNoVote) depth 12

  check_existing-SendsNoVote :
      (msg : ParsedMessage) (p : Option ParsedMessage) → SendsNoVote (check_existing msg p)
  unfolding check_existing
  check_existing-SendsNoVote msg none = done-SendsNoVote
  check_existing-SendsNoVote msg (some p) = search vote_rules depth 12

  handle_pre_prepare-SendsNoVote : (msg : ParsedMessage) → SendsNoVote (handle_pre_prepare env msg)
  unfolding handle_pre_prepare accept_pre_prepare enter_preparing
  handle_pre_prepare-SendsNoVote msg = search (vote_rules, check_existing-SendsNoVote) depth 16

module _ (env : Env) (send : ParsedMessage → M (Unit {0}))
    (safe : (msg : ParsedMessage) → SendsNoVote (send msg)) where
  -- A message of any other type.
  broadcast_message-SendsNoVote :
      (t : PbftMessageType) (bytes : Bytes)
      → t ≢ PbftMessageType.commit
      → SendsNoVote (broadcast_message env send t bytes)
  unfolding broadcast_message
  broadcast_message-SendsNoVote t bytes ne =
      search (vote_rules, safe, broadcast-IsNoVote t bytes ne) depth 12

  pub broadcast_pbft_message-SendsNoVote :
      (seq : ℕ) (t : PbftMessageType) (block : PbftBlock)
      → t ≢ PbftMessageType.commit
      → SendsNoVote (broadcast_pbft_message env send seq t block)
  unfolding broadcast_pbft_message
  broadcast_pbft_message-SendsNoVote seq t block ne = >>=-SendsNoVote get_state-SendsNoVote (λ s.
      if-SendsNoVote (is_multicast t && not (t == check_msg_type s)) done
        (broadcast_message env send t (make_msg_bytes env (make_msg_info t s.view seq s.id) block))
        done-SendsNoVote
        (broadcast_message-SendsNoVote t
          (make_msg_bytes env (make_msg_info t s.view seq s.id) block) ne))

  send_view_change-SendsNoVote :
      (s : PbftState) (seal : PbftSeal) → SendsNoVote (send_view_change env send s seal)
  unfolding send_view_change
  send_view_change-SendsNoVote s seal =
      >>=-SendsNoVote
        (lift-SendsNoVote (
          or_fail PbftError.serialization_error
            (env.codec.write_view_change (view_change_message s seal))))
        (λ bytes. broadcast_message-SendsNoVote PbftMessageType.view_change bytes (λ e. cc))

  pub propose_view_change-SendsNoVote : SendsNoVote (propose_view_change env send)
  unfolding propose_view_change
  propose_view_change-SendsNoVote = search (vote_rules, send_view_change-SendsNoVote) depth 12

  join_view_change-SendsNoVote : (msg : ParsedMessage) → SendsNoVote (join_view_change env send msg)
  unfolding join_view_change propose_view_change_if_enough_messages
  join_view_change-SendsNoVote msg =
      search (vote_rules, propose_view_change-SendsNoVote, handle_view_change-SendsNoVote) depth 12

  answer_pre_prepare-SendsNoVote :
      (msg : ParsedMessage) (r : Outcome (Unit {0}))
      → SendsNoVote (answer_pre_prepare env send msg r)
  unfolding answer_pre_prepare broadcast_pre_prepare on_pre_prepare_error
  answer_pre_prepare-SendsNoVote msg (ok _) =
      >>=-SendsNoVote (lift-SendsNoVote (get_block msg)) (λ block.
        broadcast_pbft_message-SendsNoVote (info msg).seq_num PbftMessageType.prepare block
          (λ e. cc))
  answer_pre_prepare-SendsNoVote msg (err PbftError.no_block_new) =
      modify_log-SendsNoVote (push_backlog msg)
  answer_pre_prepare-SendsNoVote msg (err x) = fail-SendsNoVote _
  answer_pre_prepare-SendsNoVote msg panic = lift-SendsNoVote panic
  answer_pre_prepare-SendsNoVote msg out_of_fuel = lift-SendsNoVote out_of_fuel

  dispatch-SendsNoVote :
      (t : PbftMessageType) (msg : ParsedMessage) → SendsNoVote (dispatch env send t msg)
  unfolding dispatch on_pre_prepare on_prepare on_commit on_view_change
  dispatch-SendsNoVote PbftMessageType.pre_prepare msg =
      match-SendsNoVote (handle_pre_prepare env msg) (answer_pre_prepare env send msg)
        (handle_pre_prepare-SendsNoVote env msg) (answer_pre_prepare-SendsNoVote msg)
  dispatch-SendsNoVote PbftMessageType.prepare msg =
      >>=-SendsNoVote (log_message-SendsNoVote msg) (λ _. check_if_prepared-SendsNoVote env msg)
  dispatch-SendsNoVote PbftMessageType.commit msg =
      >>=-SendsNoVote (log_message-SendsNoVote msg) (λ _. commit_if_committable-SendsNoVote env msg)
  dispatch-SendsNoVote PbftMessageType.view_change msg =
      >>=-SendsNoVote (log_message-SendsNoVote msg) (λ _. join_view_change-SendsNoVote msg)
  dispatch-SendsNoVote PbftMessageType.block_new msg = done-SendsNoVote
  dispatch-SendsNoVote PbftMessageType.unset msg = done-SendsNoVote

pub on_peer_message-SendsNoVote :
    (env : Env) (fuel : ℕ) (msg : ParsedMessage) → SendsNoVote (on_peer_message env fuel msg)
unfolding on_peer_message on_peer_body
on_peer_message-SendsNoVote env zero msg = lift-SendsNoVote out_of_fuel
on_peer_message-SendsNoVote env (suc fuel) msg =
    dispatch-SendsNoVote env (on_peer_message env fuel) (on_peer_message-SendsNoVote env fuel)
      (from_str (info msg).msg_type) msg
