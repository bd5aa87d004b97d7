-- ===== src/Node/Agreed.antt =====
-- The updates of the engine keep the agreement of the log, whatever bytes the peers send.
use sawtooth_pbft.Common.{Bytes, ℕ, zero, suc, sym, ◌∙◌}
use sawtooth_pbft.Protos.{PbftBlock, PbftSeal}
use sawtooth_pbft.MessageType.{PbftMessageType}
use sawtooth_pbft.Error.{out_of_fuel}
use sawtooth_pbft.ParsedMessage.{ParsedMessage}
use sawtooth_pbft.State.{PbftState}
use sawtooth_pbft.Service.{Env}
use sawtooth_pbft.Node.{PbftNode, M}
use sawtooth_pbft.Node.Broadcast.{
  broadcast_message, broadcast_pbft_message, send_view_change, propose_view_change,
}
use sawtooth_pbft.Node.Peer.{on_peer_message}
use sawtooth_pbft.Node.Preserves.{LogKeeps, lift-LogKeeps, log_message-LogKeeps, log_rules}
use sawtooth_pbft.Handlers.Agreed.{LogAgrees, insert_other-LogAgrees}
use sawtooth_pbft.Node.Handling.{Handling, propose_view_change-LogKeeps, on_peer_body-LogKeeps}
use sawtooth_pbft.Handlers.Accepts.{handle_pre_prepare-LogAgrees}

module _ (env : Env) (send : ParsedMessage → M (Unit {0}))
    (safe : (msg : ParsedMessage) → LogKeeps LogAgrees (send msg)) where
  broadcast_message-LogKeeps :
      (t : PbftMessageType) (bytes : Bytes)
      → LogKeeps LogAgrees (broadcast_message env send t bytes)
  unfolding broadcast_message
  broadcast_message-LogKeeps t bytes = search (log_rules, safe) depth 12

  pub broadcast_pbft_message-LogKeeps :
      (seq : ℕ) (t : PbftMessageType) (block : PbftBlock)
      → LogKeeps LogAgrees (broadcast_pbft_message env send seq t block)
  unfolding broadcast_pbft_message
  broadcast_pbft_message-LogKeeps seq t block =
      search (log_rules, broadcast_message-LogKeeps) depth 12

  send_view_change-LogKeeps :
      (s : PbftState) (seal : PbftSeal) → LogKeeps LogAgrees (send_view_change env send s seal)
  unfolding send_view_change
  send_view_change-LogKeeps s seal = search (log_rules, broadcast_message-LogKeeps) depth 12

  agreed-Handling : Handling LogAgrees (λ _. Unit {0}) env send
  agreed-Handling = record {
    broadcasts = λ seq t block ne. broadcast_pbft_message-LogKeeps seq t block;
    sends_view_change = send_view_change-LogKeeps;
    logs = λ t msg ne e a.
        log_message-LogKeeps msg (λ ms. insert_other-LogAgrees msg ms (λ p. ne (sym e ∙ p)));
    pre_prepares = λ msg e a. handle_pre_prepare-LogAgrees env msg;
  }

  pub proposal-LogAgrees : LogKeeps LogAgrees (propose_view_change env send)
  proposal-LogAgrees = propose_view_change-LogKeeps env send agreed-Handling

pub on_peer_message-LogKeeps :
    (env : Env) (fuel : ℕ) (msg : ParsedMessage) → LogKeeps LogAgrees (on_peer_message env fuel msg)
unfolding on_peer_message
on_peer_message-LogKeeps env zero msg = lift-LogKeeps out_of_fuel
on_peer_message-LogKeeps env (suc fuel) msg =
    on_peer_body-LogKeeps env (on_peer_message env fuel)
      (agreed-Handling env (on_peer_message env fuel) (on_peer_message-LogKeeps env fuel)) msg tt

-- `on_peer_message` keeps the agreement of the log for any message at all, whatever it answers and
-- whatever the messages that the node sends to itself turn into: no message is logged twice, and
-- never do two logged `PrePrepare` messages of one view and sequence number carry different blocks.
pub on_peer_message-LogAgrees :
    (env : Env) (fuel : ℕ) (msg : ParsedMessage) (n : PbftNode)
    → LogAgrees n.msg_log.messages
    → LogAgrees (on_peer_message env fuel msg n).1.msg_log.messages
on_peer_message-LogAgrees env fuel msg = (on_peer_message-LogKeeps env fuel msg).at
