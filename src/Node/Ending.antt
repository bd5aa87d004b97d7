-- ===== src/Node/Ending.antt =====
-- The methods of message handling that need no fuel, or pass it to the messages that they send.
use sawtooth_pbft.Common.{if◌then◌else◌, ℕ, ◌≡◌, sym, subst, inl, inr, false, arith}
use sawtooth_pbft.Error.{ok}
use sawtooth_pbft.ParsedMessage.{ParsedMessage, info}
use sawtooth_pbft.State.{PbftMode}
use sawtooth_pbft.Log.{PbftLog, only_seal, get_consensus_seal}
use sawtooth_pbft.Log.Sets.{with_message}
use sawtooth_pbft.Service.{Env}
use sawtooth_pbft.Node.{PbftNode, M, done, log_message}
use sawtooth_pbft.Node.Keeps.{after, log_message_cases}
use sawtooth_pbft.Handlers.{handle_view_change}
use sawtooth_pbft.Node.Peer.{
  check_blocks_if_not_checking, commit_block_if_committing, check_if_prepared, on_prepare,
  commit_if_committable, on_commit, propose_view_change_if_enough_messages, join_view_change,
  on_view_change,
}
use sawtooth_pbft.Node.Ends.{
  Returns, Ends, >>=-Ends, next-Ends, get_block-Returns, check_prepared-Returns,
  check_committable-Returns, log_message-Ends, handle_view_change-Ends, handle_commit-Ends,
}

check_if_prepared-Ends : (env : Env) (msg : ParsedMessage) → Ends (check_if_prepared env msg)
unfolding check_if_prepared check_blocks_if_not_checking
check_if_prepared-Ends env msg n e =
    ground (arith, check_prepared-Returns (info msg) n.state.f n.msg_log, get_block-Returns msg)

pub on_prepare-Ends : (env : Env) (msg : ParsedMessage) → Ends (on_prepare env msg)
unfolding on_prepare
on_prepare-Ends env msg =
    >>=-Ends (log_message msg) (λ _. check_if_prepared env msg) (log_message-Ends msg)
      (λ _. check_if_prepared-Ends env msg)

commit_if_committable-Ends :
    (env : Env) (msg : ParsedMessage) → Ends (commit_if_committable env msg)
unfolding commit_if_committable commit_block_if_committing
commit_if_committable-Ends env msg n e =
    ground (
      arith,
      check_committable-Returns (info msg) n.state.f n.msg_log,
      handle_commit-Ends env msg n,
    )

pub on_commit-Ends : (env : Env) (msg : ParsedMessage) → Ends (on_commit env msg)
unfolding on_commit
on_commit-Ends env msg =
    >>=-Ends (log_message msg) (λ _. commit_if_committable env msg) (log_message-Ends msg)
      (λ _. commit_if_committable-Ends env msg)

module _ (env : Env) (send : ParsedMessage → M (Unit {0})) where
  -- In the mode `view_changing` a `ViewChange` makes the node send nothing.
  not_proposed :
      (msg : ParsedMessage) (n : PbftNode)
      → n.state.mode ≡ PbftMode.view_changing
      → propose_view_change_if_enough_messages env send msg n ≡ (ok false, n)
  unfolding propose_view_change_if_enough_messages
  not_proposed msg n m = ground arith

  join_view_change-Ends :
      (msg : ParsedMessage) (n : PbftNode)
      → n.state.mode ≡ PbftMode.view_changing
      → Returns (join_view_change env send msg n).0
  unfolding join_view_change
  join_view_change-Ends msg n m =
      next-Ends (propose_view_change_if_enough_messages env send msg)
        (λ stopped. if stopped then done else handle_view_change env msg) n (not_proposed msg n m)
        (handle_view_change-Ends env msg n)

  pub view_changing-Ends :
      (msg : ParsedMessage) (n : PbftNode)
      → n.state.mode ≡ PbftMode.view_changing
      → Returns (on_view_change env send msg n).0
  unfolding on_view_change
  view_changing-Ends msg n m = elim (log_message_cases msg n) [
    | inl (v, e) ↦
        next-Ends (log_message msg) (λ _. join_view_change env send msg) n e
          (join_view_change-Ends msg (record n { msg_log = with_message msg n.msg_log }) m)
    | inr (v, e) ↦
        subst (λ r. Returns (after (λ _. join_view_change env send msg) r).0) (sym e) (λ x. cc)
  ]

pub get_consensus_seal-Returns : (seq : ℕ) (log : PbftLog) → Returns (get_consensus_seal seq log)
unfolding get_consensus_seal only_seal
get_consensus_seal-Returns seq log e = ground arith
