-- ===== src/Node/Received.antt =====
-- New and valid blocks and the retried messages keep the agreement of the log.
use sawtooth_pbft.Common.{
  ltb, if◌then◌else◌, first, All, ◌==◌, nat_eq, string_eq, Bytes, bytes_eq, add64, ◌≡◌, sym, ap,
  ◌∙◌, ◌≢◌, not, ◌&&◌, Option, none, some, List, [], ◌∷◌, arith,
}
use sawtooth_pbft.Protos.{
  PbftMessage, PbftSeal, Block, block_eq, info_eq, message_eq, seal_eq, view_change_eq,
}
use sawtooth_pbft.MessageType.{PbftMessageType, type_eq, from_str, from_str-type_name}
use sawtooth_pbft.Error.{PbftError, Outcome, ok, err, panic, out_of_fuel}
use sawtooth_pbft.Outcome.{or_panic, or_fail, first_step}
use sawtooth_pbft.Codec.{Codec}
use sawtooth_pbft.ParsedMessage.{
  ParsedMessage, parsed_eq, info, get_block, from_pbft_message, as_msg_type,
}
use sawtooth_pbft.State.{PbftPhase, phase_eq, PbftState}
use sawtooth_pbft.Log.{entry_eq, add_consensus_seal, pop_backlog}
use sawtooth_pbft.Service.{Call, Env}
use sawtooth_pbft.Node.{M, ◌>>=◌, ◌>>◌, fail, lift, done, when, log_message}
use sawtooth_pbft.Handlers.{make_msg_info}
use sawtooth_pbft.Node.Broadcast.{propose_view_change}
use sawtooth_pbft.Node.Votes.{seal_messages}
use sawtooth_pbft.Node.Seal.{verify_consensus_seal}
use sawtooth_pbft.Node.Blocks.{on_block_valid}
use sawtooth_pbft.Node.NewBlock.{
  check_next, raise_view, log_messages, set_phase, catchup_with, catchup, block_new_message,
  reject_block, take_working_block, accept_block, keep_seal, answer_seal, verify_and_accept,
  on_block_new,
}
use sawtooth_pbft.Node.Publish.{retry, retry_backlog}
use sawtooth_pbft.Node.Preserves.{
  LogKeeps, fail-LogKeeps, lift-LogKeeps, reads_log-LogKeeps, query_state-LogKeeps, >>=-LogKeeps,
  if-LogKeeps, done-LogKeeps, get_state-LogKeeps, modify_state-LogKeeps, request-LogKeeps,
  modify_log-LogKeeps, lift_bind-LogKeeps, match-LogKeeps, log_message-LogKeeps, log_rules,
}
use sawtooth_pbft.Handlers.Agreed.{LogAgrees, insert_other-LogAgrees}
use sawtooth_pbft.Node.Unlogged.{handle_commit-LogKeeps, verify_consensus_seal-LogKeeps}
use sawtooth_pbft.Node.Agreed.{broadcast_pbft_message-LogKeeps, proposal-LogAgrees}
use sawtooth_pbft.Node.Updates.{on_block_commit-LogKeeps}

info-from_pbft_message :
    (c : Codec) (msg : ParsedMessage) (m : PbftMessage)
    → from_pbft_message c m ≡ ok msg
    → info msg ≡ m.info
unfolding from_pbft_message info
info-from_pbft_message c msg m e =
    let (bytes, (found, made)) = first_step (or_panic (c.write_message m)) _ e in ground arith

-- No message of the seal that a block carries reads as a `PrePrepare`.
abbrev pub HasNoPrePrepare : Env → Block → Type 0
HasNoPrePrepare env block =
    (seal : PbftSeal) (msgs : List ParsedMessage)
    → env.codec.parse_seal block.payload ≡ some seal
    → seal_messages env.codec seal.previous_commit_votes ≡ ok msgs
    → All (λ m. from_str (info m).msg_type ≢ PbftMessageType.pre_prepare) msgs

module _ (env : Env) where
  log_other-LogKeeps :
      (msg : ParsedMessage)
      → from_str (info msg).msg_type ≢ PbftMessageType.pre_prepare
      → LogKeeps LogAgrees (log_message msg)
  log_other-LogKeeps msg ne = log_message-LogKeeps msg (λ ms. insert_other-LogAgrees msg ms ne)

  log_messages-LogKeeps :
      (msgs : List ParsedMessage)
      → All (λ m. from_str (info m).msg_type ≢ PbftMessageType.pre_prepare) msgs
      → LogKeeps LogAgrees (log_messages msgs)
  unfolding log_messages
  log_messages-LogKeeps [] h = done-LogKeeps
  log_messages-LogKeeps (m ∷ ms) h =
      >>=-LogKeeps (log_other-LogKeeps m h.0) (λ _. log_messages-LogKeeps ms h.1)

  catchup_with-LogKeeps :
      (msgs : List ParsedMessage)
      → All (λ m. from_str (info m).msg_type ≢ PbftMessageType.pre_prepare) msgs
      → LogKeeps LogAgrees (catchup_with env msgs)
  unfolding catchup_with
  catchup_with-LogKeeps msgs h = >>=-LogKeeps (lift-LogKeeps (or_panic (first msgs))) (λ msg.
      >>=-LogKeeps (modify_state-LogKeeps (raise_view (info msg).view)) (λ _.
        >>=-LogKeeps (log_messages-LogKeeps msgs h) (λ _.
          >>=-LogKeeps (modify_state-LogKeeps (set_phase PbftPhase.committing)) (λ _.
            >>=-LogKeeps (lift-LogKeeps (as_msg_type msg PbftMessageType.commit)) (λ m.
              >>=-LogKeeps (handle_commit-LogKeeps env m) (λ _.
                >>=-LogKeeps (lift-LogKeeps (get_block msg))
                  (λ block. on_block_commit-LogKeeps env block.block_id)))))))

  catchup-LogKeeps :
      (block : Block) → HasNoPrePrepare env block → LogKeeps LogAgrees (catchup env block)
  unfolding catchup
  catchup-LogKeeps block h = >>=-LogKeeps (query_state-LogKeeps (check_next block)) (λ _.
      lift_bind-LogKeeps
        (or_fail PbftError.serialization_error (env.codec.parse_seal block.payload))
        (λ seal. lift (seal_messages env.codec seal.previous_commit_votes) >>= catchup_with env)
        (λ seal e.
          lift_bind-LogKeeps (seal_messages env.codec seal.previous_commit_votes) (catchup_with env)
            (λ msgs d.
              catchup_with-LogKeeps msgs
                (h seal msgs (parsed (env.codec.parse_seal block.payload) seal e) d))))
    where
      parsed :
          (r : Option PbftSeal) (seal : PbftSeal)
          → or_fail PbftError.serialization_error r ≡ ok seal
          → r ≡ some seal
      parsed none seal e = cc
      parsed (some s) seal e = cc

module _ (env : Env) (send : ParsedMessage → M (Unit {0}))
    (safe : (msg : ParsedMessage) → LogKeeps LogAgrees (send msg)) where
  take_working_block-LogKeeps :
      (block : Block) → LogKeeps LogAgrees (take_working_block env send block)
  unfolding take_working_block
  take_working_block-LogKeeps block =
      search (log_rules, broadcast_pbft_message-LogKeeps env send safe) depth 12

  keep_seal-LogKeeps :
      (block : Block) (seal : Option PbftSeal) → LogKeeps LogAgrees (keep_seal env send block seal)
  unfolding keep_seal add_consensus_seal
  keep_seal-LogKeeps block none = done-LogKeeps
  keep_seal-LogKeeps block (some seal) =
      >>=-LogKeeps get_state-LogKeeps
        (λ s. modify_log-LogKeeps (add_consensus_seal block.block_id s.seq_num seal) (λ log v. v))

  -- The node's own `BlockNew` message is no `PrePrepare`.
  announces :
      (s : PbftState) (block : Block) (msg : ParsedMessage)
      → from_pbft_message env.codec (block_new_message s block) ≡ ok msg
      → from_str (info msg).msg_type ≢ PbftMessageType.pre_prepare
  unfolding block_new_message make_msg_info
  announces s block msg e pre = apart (
      sym (from_str-type_name PbftMessageType.block_new)
      ∙ sym (
          ap (λ i. from_str i.msg_type)
            (info-from_pbft_message env.codec msg (block_new_message s block) e))
      ∙ pre)
    where
      apart : PbftMessageType.block_new ≡ PbftMessageType.pre_prepare → ⊥
      apart d = cc

  catchup_or_take-LogKeeps :
      (s : PbftState) (block : Block)
      → HasNoPrePrepare env block
      → LogKeeps LogAgrees (
          if block.block_num == add64 s.seq_num 1 && not (s.phase == PbftPhase.finished)
          then catchup env block
          else when (block.block_num == s.seq_num) (take_working_block env send block))
  catchup_or_take-LogKeeps s block h =
      if-LogKeeps (block.block_num == add64 s.seq_num 1 && not (s.phase == PbftPhase.finished))
        (catchup env block)
        (when (block.block_num == s.seq_num) (take_working_block env send block))
        (catchup-LogKeeps env block h)
        (if-LogKeeps (block.block_num == s.seq_num) (take_working_block env send block) done
          (take_working_block-LogKeeps block) done-LogKeeps)

  accept_block-LogKeeps :
      (block : Block) → HasNoPrePrepare env block → LogKeeps LogAgrees (accept_block env send block)
  unfolding accept_block
  accept_block-LogKeeps block h = >>=-LogKeeps get_state-LogKeeps (λ s.
      lift_bind-LogKeeps (from_pbft_message env.codec (block_new_message s block))
        (λ msg.
          log_message msg
          >> (if block.block_num == add64 s.seq_num 1 && not (s.phase == PbftPhase.finished)
              then catchup env block
              else when (block.block_num == s.seq_num) (take_working_block env send block)))
        (λ msg e.
          >>=-LogKeeps (log_other-LogKeeps env msg (announces s block msg e))
            (λ _. catchup_or_take-LogKeeps s block h)))

  reject_block-LogKeeps :
      (block : Block) (e : PbftError) → LogKeeps LogAgrees (reject_block env send block e)
  unfolding reject_block
  reject_block-LogKeeps block e =
      >>=-LogKeeps (request-LogKeeps env (Call.fail_block block.block_id)) (λ failed.
        if-LogKeeps failed (propose_view_change env send >> fail e)
          (fail (PbftError.internal_error "Couldn't fail block"))
          (>>=-LogKeeps (proposal-LogAgrees env send safe) (λ _. fail-LogKeeps e))
          (fail-LogKeeps (PbftError.internal_error "Couldn't fail block")))

  answer_seal-LogKeeps :
      (block : Block) (r : Outcome (Option PbftSeal))
      → HasNoPrePrepare env block
      → LogKeeps LogAgrees (answer_seal env send block r)
  unfolding answer_seal
  answer_seal-LogKeeps block (ok seal) h =
      >>=-LogKeeps (keep_seal-LogKeeps block seal) (λ _. accept_block-LogKeeps block h)
  answer_seal-LogKeeps block (err e) h = reject_block-LogKeeps block e
  answer_seal-LogKeeps block panic h = lift-LogKeeps panic
  answer_seal-LogKeeps block out_of_fuel h = lift-LogKeeps out_of_fuel

  pub on_block_new-LogKeeps :
      (block : Block) → HasNoPrePrepare env block → LogKeeps LogAgrees (on_block_new env send block)
  unfolding on_block_new verify_and_accept
  on_block_new-LogKeeps block h = >>=-LogKeeps get_state-LogKeeps (λ s.
      if-LogKeeps (ltb block.block_num s.seq_num) done
        (λ n.
          answer_seal env send block (verify_consensus_seal env block n).0
            (verify_consensus_seal env block n).1)
        done-LogKeeps
        (match-LogKeeps (verify_consensus_seal env block) (answer_seal env send block)
          (verify_consensus_seal-LogKeeps env block) (λ r. answer_seal-LogKeeps block r h)))

  pub on_block_valid-LogKeeps : (id : Bytes) → LogKeeps LogAgrees (on_block_valid env send id)
  unfolding on_block_valid
  on_block_valid-LogKeeps id =
      search (log_rules, broadcast_pbft_message-LogKeeps env send safe) depth 12

  retry-LogKeeps : (popped : Option ParsedMessage) → LogKeeps LogAgrees (retry send popped)
  unfolding retry
  retry-LogKeeps none = done-LogKeeps
  retry-LogKeeps (some msg) = safe msg

  pub retry_backlog-LogKeeps : LogKeeps LogAgrees (retry_backlog send)
  unfolding retry_backlog pop_backlog
  retry_backlog-LogKeeps = >>=-LogKeeps (reads_log-LogKeeps (λ log. (pop_backlog log).0)) (λ popped.
      >>=-LogKeeps (modify_log-LogKeeps (λ log. (pop_backlog log).1) (λ log v. v))
        (λ _. retry-LogKeeps popped))
