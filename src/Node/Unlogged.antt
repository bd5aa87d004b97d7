-- ===== src/Node/Unlogged.antt =====
-- The methods that leave the messages of the log as they are, or pass them to one that does.
use sawtooth_pbft.Common.{Bytes, String, Option, none, some, List, ◌∷◌, arith}
use sawtooth_pbft.Protos.{PbftBlock, Block}
use sawtooth_pbft.ParsedMessage.{ParsedMessage}
use sawtooth_pbft.Service.{Call, Env}
use sawtooth_pbft.Handlers.{
  handle_commit, ignore_working_block, become_primary, become_secondary, take_role,
  check_received_enough_view_changes, adopt_view, handle_view_change,
}
use sawtooth_pbft.Node.Peer.{
  check_blocks_if_not_checking, commit_block_if_committing, check_if_prepared,
  commit_if_committable,
}
use sawtooth_pbft.Node.Preserves.{LogKeeps, done-LogKeeps, log_rules}
use sawtooth_pbft.Error.{Outcome, ok, panic}
use sawtooth_pbft.Config.{Settings}
use sawtooth_pbft.Node.{PbftNode}
use sawtooth_pbft.Node.Seal.{
  get_settings, peers_at, verify_parsed_seal, verify_consensus_seal, build_seal,
}
use sawtooth_pbft.Node.Blocks.{
  take_peers, update_membership, needs_view_change, restart_timeout, start_block,
}
use sawtooth_pbft.Node.Publish.{
  summarize, finalize, payload_for, publish, try_publish, check_faulty_primary_timeout_expired,
  start_faulty_primary_timeout,
}

module _ {Q : List ParsedMessage → Type 0} (env : Env) where
  -- Methods that leave the messages alone.
  pub handle_commit-LogKeeps : (msg : ParsedMessage) → LogKeeps Q (handle_commit env msg)
  unfolding handle_commit
  handle_commit-LogKeeps msg = search log_rules depth 12

  pub check_if_prepared-LogKeeps : (msg : ParsedMessage) → LogKeeps Q (check_if_prepared env msg)
  unfolding check_if_prepared check_blocks_if_not_checking
  check_if_prepared-LogKeeps msg = search log_rules depth 12

  pub commit_if_committable-LogKeeps :
      (msg : ParsedMessage) → LogKeeps Q (commit_if_committable env msg)
  unfolding commit_if_committable commit_block_if_committing
  commit_if_committable-LogKeeps msg = search (log_rules, handle_commit-LogKeeps) depth 12

  ignore_working_block-LogKeeps : (b : Option PbftBlock) → LogKeeps Q (ignore_working_block env b)
  unfolding ignore_working_block
  ignore_working_block-LogKeeps none = search log_rules depth 12
  ignore_working_block-LogKeeps (some b) = search log_rules depth 12

  pub take_role-LogKeeps : LogKeeps Q (take_role env)
  unfolding take_role become_primary become_secondary
  take_role-LogKeeps = search (log_rules, ignore_working_block-LogKeeps) depth 12

  pub handle_view_change-LogKeeps : (msg : ParsedMessage) → LogKeeps Q (handle_view_change env msg)
  unfolding handle_view_change check_received_enough_view_changes adopt_view
  handle_view_change-LogKeeps msg = search (log_rules, take_role-LogKeeps) depth 12

module _ {Q : List ParsedMessage → Type 0} (env : Env) where
  get_settings-LogKeeps : (id : Bytes) (keys : List String) → LogKeeps Q (get_settings env id keys)
  unfolding get_settings
  get_settings-LogKeeps id keys = record {
    at = λ n q. answered n q (env.service.settings n.calls id keys);
  }
    where
      answered :
          (n : PbftNode)
          → Q n.msg_log.messages
          → (r : Option Settings)
          → Q
              (elim r as (λ _. Outcome Settings × PbftNode) [
                | none ↦ (panic, record n { calls = Call.get_settings id keys ∷ n.calls })
                | some s ↦ (ok s, record n { calls = Call.get_settings id keys ∷ n.calls })
              ]).1.msg_log.messages
      answered n q none = q
      answered n q (some s) = q

  peers_at-LogKeeps : (id : Bytes) → LogKeeps Q (peers_at env id)
  unfolding peers_at
  peers_at-LogKeeps id = search (log_rules, get_settings-LogKeeps) depth 12

  pub needs_view_change-LogKeeps : (id : Bytes) → LogKeeps Q (needs_view_change env id)
  unfolding needs_view_change update_membership take_peers
  needs_view_change-LogKeeps id = search (log_rules, peers_at-LogKeeps) depth 12

  pub restart_timeout-LogKeeps : LogKeeps Q (restart_timeout env)
  unfolding restart_timeout
  restart_timeout-LogKeeps = search log_rules depth 12

  pub start_block-LogKeeps : (id : Bytes) → LogKeeps Q (start_block env id)
  unfolding start_block
  start_block-LogKeeps id = search log_rules depth 12

  pub verify_consensus_seal-LogKeeps :
      (block : Block) → LogKeeps Q (verify_consensus_seal env block)
  unfolding verify_consensus_seal verify_parsed_seal
  verify_consensus_seal-LogKeeps block = search (log_rules, peers_at-LogKeeps) depth 12

  build_seal-LogKeeps : (summary : Bytes) → LogKeeps Q (build_seal env summary)
  unfolding build_seal
  build_seal-LogKeeps summary = search log_rules depth 12

  finalize-LogKeeps : (payload : Bytes) → LogKeeps Q (finalize env payload)
  unfolding finalize
  finalize-LogKeeps payload = record { at = λ n q. ground (arith, q) }

  summarize-LogKeeps : LogKeeps Q (summarize env)
  unfolding summarize
  summarize-LogKeeps = record { at = λ n q. q }

  publish-LogKeeps : (summary : Option Bytes) → LogKeeps Q (publish env summary)
  unfolding publish payload_for
  publish-LogKeeps none = done-LogKeeps
  publish-LogKeeps (some summary) =
      search (log_rules, build_seal-LogKeeps, finalize-LogKeeps) depth 12

  pub try_publish-LogKeeps : LogKeeps Q (try_publish env)
  unfolding try_publish
  try_publish-LogKeeps = search (log_rules, summarize-LogKeeps, publish-LogKeeps) depth 12

  pub check_timeout-LogKeeps : LogKeeps Q (check_faulty_primary_timeout_expired env)
  unfolding check_faulty_primary_timeout_expired
  check_timeout-LogKeeps = search log_rules depth 12

  pub start_timeout-LogKeeps : LogKeeps Q (start_faulty_primary_timeout env)
  unfolding start_faulty_primary_timeout
  start_timeout-LogKeeps = restart_timeout-LogKeeps
