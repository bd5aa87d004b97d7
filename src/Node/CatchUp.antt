-- ===== src/Node/CatchUp.antt =====
-- How a node catches up with a block by the seal of the next one.
use sawtooth_pbft.Common.{All, ◌≡◌, refl, ap, ◌∙◌, inl, inr, true, List, [], ◌∷◌}
use sawtooth_pbft.Error.{PbftError, ok, err}
use sawtooth_pbft.ParsedMessage.{
  PbftMessageWrapper, ParsedMessage, info, wrapper_message, get_pbft_message, get_block,
  as_msg_type,
}
use sawtooth_pbft.Log.{PbftLog}
use sawtooth_pbft.Log.Sets.{IsForView, with_message}
use sawtooth_pbft.Node.{PbftNode, M, ◌>>=◌, ◌>>◌, lift, modify_state, switch_to}
use sawtooth_pbft.Node.Keeps.{after, with_logged, log_message_cases}
use sawtooth_pbft.Node.NewBlock.{raise_view, log_messages, set_phase, catchup_with}
use sawtooth_pbft.Protos.{PbftBlock, PbftMessage}
use sawtooth_pbft.MessageType.{PbftMessageType, type_name}
use sawtooth_pbft.State.{PbftPhase, PbftState, next_phase, switch_phase}
use sawtooth_pbft.Service.{Call, Env}
use sawtooth_pbft.Handlers.{handle_commit}
use sawtooth_pbft.Node.Blocks.{on_block_commit}

-- The log with all the messages.
abbrev pub log_all : List ParsedMessage → PbftLog → PbftLog
log_all [] log = log
log_all (m ∷ ms) log = log_all ms (with_message m log)

log_messages-logs :
    (ms : List ParsedMessage) (k : PbftNode)
    → All (IsForView k.state.view) ms
    → log_messages ms k ≡ (ok tt, record k { msg_log = log_all ms k.msg_log })
unfolding log_messages
log_messages-logs [] k h = refl
log_messages-logs (m ∷ ms) k h = elim (log_message_cases m k) [
  | inl (v, e) ↦ ap (after (λ _. log_messages ms)) e ∙ log_messages-logs ms (with_logged m k) h.1
  | inr (v, e) ↦ absurd (v h.0)
]

switch_to-finishes :
    (s : PbftState)
    → s.phase ≡ PbftPhase.committing
    → switch_to PbftPhase.finished s ≡ record s { phase = PbftPhase.finished }
unfolding switch_to switch_phase next_phase
switch_to-finishes s committing = rw committing refl

-- The node after it has handed the block over.
abbrev pub handed_over : ParsedMessage → List ParsedMessage → PbftBlock → PbftNode → PbftNode
handed_over m ms b n = record n {
  state = record (raise_view (info m).view n.state) { phase = PbftPhase.finished };
  msg_log = log_all (m ∷ ms) n.msg_log;
  calls = Call.commit_block b.block_id ∷ n.calls;
}

module _ (env : Env) (m : ParsedMessage) (ms : List ParsedMessage) (p : PbftMessage)
    (wraps : m.message ≡ PbftMessageWrapper.message p) where
  abbrev commit_message : ParsedMessage
  commit_message = record m {
    message =
        PbftMessageWrapper.message
          (record p { info = record (p.info) { msg_type = type_name PbftMessageType.commit } });
  }

  as_msg_type-commit : as_msg_type m PbftMessageType.commit ≡ ok commit_message
  unfolding as_msg_type get_pbft_message wrapper_message
  as_msg_type-commit = rw wraps refl

  pub get_block-first : get_block m ≡ ok p.block
  unfolding get_block get_pbft_message wrapper_message
  get_block-first = rw wraps refl

  handle_commit-hands_over :
      (k : PbftNode)
      → k.state.phase ≡ PbftPhase.committing
      → env.service.succeeds k.calls (Call.commit_block p.block.block_id) ≡ true
      → handle_commit env commit_message k ≡ (
        ok tt,
        record k {
          state = record (k.state) { phase = PbftPhase.finished };
          calls = Call.commit_block p.block.block_id ∷ k.calls;
        },
      )
  unfolding handle_commit get_block get_pbft_message wrapper_message
  handle_commit-hands_over k committing taken =
      rw (taken, switch_to-finishes k.state committing) refl

  abbrev finish_first : M (Unit {0})
  finish_first = lift (get_block m) >>= λ block. on_block_commit env block.block_id

  abbrev commit_first : M (Unit {0})
  commit_first = do
    modify_state (set_phase PbftPhase.committing)
    commit_msg ← lift (as_msg_type m PbftMessageType.commit)
    handle_commit env commit_msg
    finish_first

  pub catchup_with-hands_over :
      (n : PbftNode)
      → All (IsForView (raise_view (info m).view n.state).view) (m ∷ ms)
      → env.service.succeeds n.calls (Call.commit_block p.block.block_id) ≡ true
      → catchup_with env (m ∷ ms) n
        ≡ on_block_commit env p.block.block_id (handed_over m ms p.block n)
  unfolding catchup_with
  catchup_with-hands_over n views taken =
      let raised : PbftNode = record n { state = raise_view (info m).view n.state } in
      let ready : PbftNode = record raised {
        state = set_phase PbftPhase.committing (raised.state);
        msg_log = log_all (m ∷ ms) n.msg_log;
      } in
      ap (after (λ _. commit_first)) (log_messages-logs (m ∷ ms) raised views)
      ∙ ap (λ r. after (λ msg. handle_commit env msg >> finish_first) (r, ready)) as_msg_type-commit
      ∙ ap (after (λ _. finish_first)) (handle_commit-hands_over ready refl taken)
      ∙ ap (λ r. after (λ b. on_block_commit env b.block_id) (r, handed_over m ms p.block n))
          get_block-first

  -- The first message is refused, and nothing has been written.
  pub catchup_with-refused :
      (n : PbftNode)
      → raise_view (info m).view n.state ≡ n.state
      → ¬ IsForView n.state.view m
      → catchup_with env (m ∷ ms) n ≡ (err (PbftError.view_mismatch (info m).view n.state.view), n)
  unfolding catchup_with log_messages
  catchup_with-refused n unraised other = elim (log_message_cases m n) [
    | inl (v, e) ↦ absurd (other v)
    | inr (v, e) ↦
        ap (λ s. after (λ _. commit_first) (log_messages (m ∷ ms) (record n { state = s })))
          unraised
        ∙ ap (λ r. after (λ _. commit_first) (after (λ _. log_messages ms) r)) e
  ]
