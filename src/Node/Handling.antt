-- ===== src/Node/Handling.antt =====
-- `on_peer_message` keeps a property of the log if its parts do.
use sawtooth_pbft.Common.{ℕ, ◌≡◌, refl, ◌≢◌, List}
use sawtooth_pbft.Protos.{PbftBlock, PbftSeal}
use sawtooth_pbft.MessageType.{PbftMessageType, from_str}
use sawtooth_pbft.Error.{PbftError, Outcome, ok, err, panic, out_of_fuel}
use sawtooth_pbft.ParsedMessage.{ParsedMessage, info, get_block}
use sawtooth_pbft.State.{PbftState}
use sawtooth_pbft.Log.{push_backlog}
use sawtooth_pbft.Service.{Env}
use sawtooth_pbft.Node.{M, log_message}
use sawtooth_pbft.Handlers.{handle_pre_prepare}
use sawtooth_pbft.Node.Broadcast.{broadcast_pbft_message, send_view_change, propose_view_change}
use sawtooth_pbft.Node.Peer.{
  on_pre_prepare_error, on_prepare, on_commit, broadcast_pre_prepare, answer_pre_prepare,
  on_pre_prepare, propose_view_change_if_enough_messages, join_view_change, on_view_change,
  dispatch, on_peer_body,
}
use sawtooth_pbft.Node.Preserves.{
  LogKeeps, fail-LogKeeps, lift-LogKeeps, >>=-LogKeeps, done-LogKeeps, modify_log-LogKeeps,
  match-LogKeeps, log_rules,
}
use sawtooth_pbft.Node.Unlogged.{
  check_if_prepared-LogKeeps, commit_if_committable-LogKeeps, handle_view_change-LogKeeps,
}

-- What a property of the log needs: the broadcasts keep it, logging a message that is no `PrePrepare`
-- keeps it, and so does the `PrePrepare` handler, for the messages that are `Admitted`.
pub record Handling (Q : List ParsedMessage → Type 0) (Admitted : ParsedMessage → Type 0)
    (env : Env) (send : ParsedMessage → M (Unit {0})) : Type 0 where
  pub broadcasts :
      (seq : ℕ) (t : PbftMessageType) (block : PbftBlock)
      → t ≢ PbftMessageType.view_change
      → LogKeeps Q (broadcast_pbft_message env send seq t block)
  pub sends_view_change :
      (s : PbftState) (seal : PbftSeal) → LogKeeps Q (send_view_change env send s seal)
  pub logs :
      (t : PbftMessageType) (msg : ParsedMessage)
      → t ≢ PbftMessageType.pre_prepare
      → from_str (info msg).msg_type ≡ t
      → Admitted msg
      → LogKeeps Q (log_message msg)
  pub pre_prepares :
      (msg : ParsedMessage)
      → from_str (info msg).msg_type ≡ PbftMessageType.pre_prepare
      → Admitted msg
      → LogKeeps Q (handle_pre_prepare env msg)

module _ {Q : List ParsedMessage → Type 0} {Admitted : ParsedMessage → Type 0} (env : Env)
    (send : ParsedMessage → M (Unit {0})) (h : Handling Q Admitted env send) where
  pub propose_view_change-LogKeeps : LogKeeps Q (propose_view_change env send)
  unfolding propose_view_change
  propose_view_change-LogKeeps = search (log_rules, h.sends_view_change) depth 12

  join_view_change-LogKeeps : (msg : ParsedMessage) → LogKeeps Q (join_view_change env send msg)
  unfolding join_view_change propose_view_change_if_enough_messages
  join_view_change-LogKeeps msg =
      search (log_rules, propose_view_change-LogKeeps, handle_view_change-LogKeeps) depth 12

  answer_pre_prepare-LogKeeps :
      (msg : ParsedMessage) (r : Outcome (Unit {0}))
      → LogKeeps Q (answer_pre_prepare env send msg r)
  unfolding answer_pre_prepare broadcast_pre_prepare on_pre_prepare_error push_backlog
  answer_pre_prepare-LogKeeps msg (ok _) =
      >>=-LogKeeps (lift-LogKeeps (get_block msg))
        (λ block. h.broadcasts (info msg).seq_num PbftMessageType.prepare block (λ e. cc))
  answer_pre_prepare-LogKeeps msg (err PbftError.no_block_new) =
      modify_log-LogKeeps (push_backlog msg) (λ log q. q)
  answer_pre_prepare-LogKeeps msg (err x) = fail-LogKeeps _
  answer_pre_prepare-LogKeeps msg panic = lift-LogKeeps panic
  answer_pre_prepare-LogKeeps msg out_of_fuel = lift-LogKeeps out_of_fuel

  dispatch-LogKeeps :
      (t : PbftMessageType) (msg : ParsedMessage)
      → from_str (info msg).msg_type ≡ t
      → Admitted msg
      → LogKeeps Q (dispatch env send t msg)
  unfolding dispatch on_pre_prepare on_prepare on_commit on_view_change
  dispatch-LogKeeps PbftMessageType.pre_prepare msg e a =
      match-LogKeeps (handle_pre_prepare env msg) (answer_pre_prepare env send msg)
        (h.pre_prepares msg e a) (answer_pre_prepare-LogKeeps msg)
  dispatch-LogKeeps PbftMessageType.prepare msg e a =
      >>=-LogKeeps (h.logs PbftMessageType.prepare msg (λ d. cc) e a)
        (λ _. check_if_prepared-LogKeeps env msg)
  dispatch-LogKeeps PbftMessageType.commit msg e a =
      >>=-LogKeeps (h.logs PbftMessageType.commit msg (λ d. cc) e a)
        (λ _. commit_if_committable-LogKeeps env msg)
  dispatch-LogKeeps PbftMessageType.view_change msg e a =
      >>=-LogKeeps (h.logs PbftMessageType.view_change msg (λ d. cc) e a)
        (λ _. join_view_change-LogKeeps msg)
  dispatch-LogKeeps PbftMessageType.block_new msg e a = done-LogKeeps
  dispatch-LogKeeps PbftMessageType.unset msg e a = done-LogKeeps

  pub on_peer_body-LogKeeps :
      (msg : ParsedMessage) → Admitted msg → LogKeeps Q (on_peer_body env send msg)
  unfolding on_peer_body
  on_peer_body-LogKeeps msg a = dispatch-LogKeeps (from_str (info msg).msg_type) msg refl a
