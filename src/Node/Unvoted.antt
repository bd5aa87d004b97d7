-- ===== src/Node/Unvoted.antt =====
-- The blocks of the validator, but for the notice that one is valid, send no vote to commit.
use sawtooth_pbft.Common.{ltb, Bytes, String, ◌≡◌, refl, Option, none, some, List, [], ◌∷◌, arith}
use sawtooth_pbft.Protos.{PbftSeal, Block}
use sawtooth_pbft.MessageType.{PbftMessageType}
use sawtooth_pbft.Error.{PbftError, Outcome, ok, err, panic, out_of_fuel}
use sawtooth_pbft.ParsedMessage.{ParsedMessage}
use sawtooth_pbft.Config.{Settings}
use sawtooth_pbft.State.{is_primary}
use sawtooth_pbft.Service.{Call, Env}
use sawtooth_pbft.Node.{PbftNode, M, ◌>>◌, fail, done}
use sawtooth_pbft.Handlers.{force_view_change, pbft_block_from_block}
use sawtooth_pbft.Node.Broadcast.{broadcast_pbft_message, propose_view_change}
use sawtooth_pbft.Node.Seal.{
  get_settings, peers_at, verify_parsed_seal, verify_consensus_seal, build_seal,
}
use sawtooth_pbft.Node.Blocks.{
  take_peers, update_membership, set_working_block, needs_view_change, restart_timeout, start_block,
  finish_block, on_block_commit,
}
use sawtooth_pbft.Node.NewBlock.{
  log_messages, catchup_with, catchup, reject_block, take_working_block, accept_block, keep_seal,
  answer_seal, verify_and_accept, on_block_new,
}
use sawtooth_pbft.Node.Publish.{
  summarize, finalize, payload_for, publish, try_publish, check_faulty_primary_timeout_expired,
}
use sawtooth_pbft.Node.Voting.{
  commit_votes, fail_block-IsNoVote, SendsNoVote, fail-SendsNoVote, lift-SendsNoVote,
  >>=-SendsNoVote, if-SendsNoVote, match-SendsNoVote, done-SendsNoVote, get_state-SendsNoVote,
  modify_state-SendsNoVote, request-SendsNoVote, log_message-SendsNoVote, vote_rules,
}
use sawtooth_pbft.Node.Voted.{
  handle_commit-SendsNoVote, take_role-SendsNoVote, broadcast_pbft_message-SendsNoVote,
  propose_view_change-SendsNoVote,
}

module _ (env : Env) where
  get_settings-SendsNoVote :
      (id : Bytes) (keys : List String) → SendsNoVote (get_settings env id keys)
  unfolding get_settings commit_votes
  get_settings-SendsNoVote id keys = record {
    at = λ n. answered n (env.service.settings n.calls id keys);
  }
    where
      answered :
          (n : PbftNode) (r : Option Settings)
          → commit_votes
              (elim r as (λ _. Outcome Settings × PbftNode) [
                | none ↦ (panic, record n { calls = Call.get_settings id keys ∷ n.calls })
                | some s ↦ (ok s, record n { calls = Call.get_settings id keys ∷ n.calls })
              ]).1.calls
            ≡ commit_votes n.calls
      answered n none = refl
      answered n (some s) = refl

  peers_at-SendsNoVote : (id : Bytes) → SendsNoVote (peers_at env id)
  unfolding peers_at
  peers_at-SendsNoVote id = search (vote_rules, get_settings-SendsNoVote) depth 12

  verify_consensus_seal-SendsNoVote :
      (block : Block) → SendsNoVote (verify_consensus_seal env block)
  unfolding verify_consensus_seal verify_parsed_seal
  verify_consensus_seal-SendsNoVote block = search (vote_rules, peers_at-SendsNoVote) depth 12

  needs_view_change-SendsNoVote : (id : Bytes) → SendsNoVote (needs_view_change env id)
  unfolding needs_view_change update_membership take_peers
  needs_view_change-SendsNoVote id = search (vote_rules, peers_at-SendsNoVote) depth 12

  force_view_change-SendsNoVote : SendsNoVote (force_view_change env)
  unfolding force_view_change
  force_view_change-SendsNoVote = search (vote_rules, take_role-SendsNoVote) depth 12

  restart_timeout-SendsNoVote : SendsNoVote (restart_timeout env)
  unfolding restart_timeout
  restart_timeout-SendsNoVote = search vote_rules depth 12

  start_block-SendsNoVote : (id : Bytes) → SendsNoVote (start_block env id)
  unfolding start_block
  start_block-SendsNoVote id = search vote_rules depth 12

  finish_block-SendsNoVote : (id : Bytes) → SendsNoVote (finish_block env id)
  unfolding finish_block
  finish_block-SendsNoVote id =
      search
        (
          vote_rules, needs_view_change-SendsNoVote, force_view_change-SendsNoVote,
          restart_timeout-SendsNoVote, start_block-SendsNoVote,
        )
        depth 24

  pub on_block_commit-SendsNoVote : (id : Bytes) → SendsNoVote (on_block_commit env id)
  unfolding on_block_commit
  on_block_commit-SendsNoVote id = search (vote_rules, finish_block-SendsNoVote) depth 12

  log_messages-SendsNoVote : (msgs : List ParsedMessage) → SendsNoVote (log_messages msgs)
  unfolding log_messages
  log_messages-SendsNoVote [] = done-SendsNoVote
  log_messages-SendsNoVote (m ∷ ms) =
      >>=-SendsNoVote (log_message-SendsNoVote m) (λ _. log_messages-SendsNoVote ms)

  catchup-SendsNoVote : (block : Block) → SendsNoVote (catchup env block)
  unfolding catchup catchup_with
  catchup-SendsNoVote block =
      search
        (
          vote_rules, log_messages-SendsNoVote, handle_commit-SendsNoVote,
          on_block_commit-SendsNoVote,
        )
        depth 24

module _ (env : Env) (send : ParsedMessage → M (Unit {0}))
    (safe : (msg : ParsedMessage) → SendsNoVote (send msg)) where
  take_working_block-SendsNoVote : (block : Block) → SendsNoVote (take_working_block env send block)
  unfolding take_working_block
  take_working_block-SendsNoVote block =
      >>=-SendsNoVote
        (modify_state-SendsNoVote (set_working_block (some (pbft_block_from_block block))))
        (λ _. >>=-SendsNoVote get_state-SendsNoVote (λ s.
          if-SendsNoVote (is_primary s)
            (broadcast_pbft_message env send s.seq_num PbftMessageType.pre_prepare
              (pbft_block_from_block block))
            done
            (broadcast_pbft_message-SendsNoVote env send safe s.seq_num PbftMessageType.pre_prepare
              (pbft_block_from_block block) (λ e. cc))
            done-SendsNoVote))

  accept_block-SendsNoVote : (block : Block) → SendsNoVote (accept_block env send block)
  unfolding accept_block
  accept_block-SendsNoVote block =
      search (vote_rules, catchup-SendsNoVote env, take_working_block-SendsNoVote) depth 16

  keep_seal-SendsNoVote :
      (block : Block) (seal : Option PbftSeal) → SendsNoVote (keep_seal env send block seal)
  unfolding keep_seal
  keep_seal-SendsNoVote block none = done-SendsNoVote
  keep_seal-SendsNoVote block (some seal) = search vote_rules depth 12

  reject_block-SendsNoVote :
      (block : Block) (e : PbftError) → SendsNoVote (reject_block env send block e)
  unfolding reject_block
  reject_block-SendsNoVote block e =
      >>=-SendsNoVote
        (request-SendsNoVote env (Call.fail_block block.block_id)
          (fail_block-IsNoVote block.block_id))
        (λ failed.
          if-SendsNoVote failed (propose_view_change env send >> fail e)
            (fail (PbftError.internal_error "Couldn't fail block"))
            (>>=-SendsNoVote (propose_view_change-SendsNoVote env send safe)
              (λ _. fail-SendsNoVote e))
            (fail-SendsNoVote (PbftError.internal_error "Couldn't fail block")))

  answer_seal-SendsNoVote :
      (block : Block) (r : Outcome (Option PbftSeal)) → SendsNoVote (answer_seal env send block r)
  unfolding answer_seal
  answer_seal-SendsNoVote block (ok seal) =
      >>=-SendsNoVote (keep_seal-SendsNoVote block seal) (λ _. accept_block-SendsNoVote block)
  answer_seal-SendsNoVote block (err e) = reject_block-SendsNoVote block e
  answer_seal-SendsNoVote block panic = lift-SendsNoVote panic
  answer_seal-SendsNoVote block out_of_fuel = lift-SendsNoVote out_of_fuel

  pub on_block_new-SendsNoVote : (block : Block) → SendsNoVote (on_block_new env send block)
  unfolding on_block_new verify_and_accept
  on_block_new-SendsNoVote block = >>=-SendsNoVote get_state-SendsNoVote (λ s.
      if-SendsNoVote (ltb block.block_num s.seq_num) done (verify_and_accept env send block)
        done-SendsNoVote
        (match-SendsNoVote (verify_consensus_seal env block) (answer_seal env send block)
          (verify_consensus_seal-SendsNoVote env block) (answer_seal-SendsNoVote block)))

module _ (env : Env) where
  summarize-SendsNoVote : SendsNoVote (summarize env)
  unfolding summarize commit_votes
  summarize-SendsNoVote = record { at = λ n. refl }

  finalize-SendsNoVote : (payload : Bytes) → SendsNoVote (finalize env payload)
  unfolding finalize commit_votes
  finalize-SendsNoVote payload = record { at = λ n. ground arith }

  build_seal-SendsNoVote : (summary : Bytes) → SendsNoVote (build_seal env summary)
  unfolding build_seal
  build_seal-SendsNoVote summary = search vote_rules depth 12

  publish-SendsNoVote : (summary : Option Bytes) → SendsNoVote (publish env summary)
  unfolding publish payload_for
  publish-SendsNoVote none = done-SendsNoVote
  publish-SendsNoVote (some summary) =
      search (vote_rules, build_seal-SendsNoVote, finalize-SendsNoVote) depth 12

  pub try_publish-SendsNoVote : SendsNoVote (try_publish env)
  unfolding try_publish
  try_publish-SendsNoVote = search (vote_rules, summarize-SendsNoVote, publish-SendsNoVote) depth 12

  pub check_timeout-SendsNoVote : SendsNoVote (check_faulty_primary_timeout_expired env)
  unfolding check_faulty_primary_timeout_expired
  check_timeout-SendsNoVote = search vote_rules depth 12
