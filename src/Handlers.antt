-- ===== src/Handlers.antt =====
-- src/handlers.rs: the handlers of the message types.
pub mod Agreement
pub mod Agreed
pub mod Accepts
pub mod PrePrepare
pub mod Views
use sawtooth_pbft.Common.{
  if◌then◌else◌, ◌==◌, nat_eq, string_eq, Bytes, bytes_eq, add64, ℕ, Bool, true, false, not, Option,
  none, some, List, [], ◌∷◌,
}
use sawtooth_pbft.Protos.{
  PbftBlock, PbftMessageInfo, Block, block_eq, info_eq, message_eq, seal_eq, view_change_eq,
}
use sawtooth_pbft.MessageType.{PbftMessageType, type_eq, type_name}
use sawtooth_pbft.Error.{PbftError, Outcome, ok, err, panic, out_of_fuel}
use sawtooth_pbft.ParsedMessage.{ParsedMessage, parsed_eq, info, get_block}
use sawtooth_pbft.Timing.{stop}
use sawtooth_pbft.State.{
  PbftPhase, phase_eq, PbftState, get_primary_id, upgrade_role, downgrade_role,
  discard_current_block,
}
use sawtooth_pbft.Log.{
  entry_eq, PbftLog, get_messages_of_type_seq, get_one_msg, log_has_required_msgs, quorum,
}
use sawtooth_pbft.Service.{Call, Env}
use sawtooth_pbft.Node.{
  M, ◌>>=◌, ◌>>◌, fail, lift, query_state, query_log, reads_log, done, get_state, modify_state,
  when, request, now, log_message, switch_to,
}

-- `iter().any(|m| m.get_block() == message.get_block())`, up to the first match.
unfoldable pub any_block : ParsedMessage → List ParsedMessage → Outcome Bool
any_block msg [] = ok false
any_block msg (m ∷ ms) = elim (get_block m) [
  | ok block ↦ elim (get_block msg) [
    | ok msg_block ↦ if block == msg_block then ok true else any_block msg ms
    | err e ↦ err e
    | panic ↦ panic
    | out_of_fuel ↦ out_of_fuel
  ]
  | err e ↦ err e
  | panic ↦ panic
  | out_of_fuel ↦ out_of_fuel
]

-- The third check of `pre_prepare`: no other block at this view and sequence number.
unfoldable pub check_existing : ParsedMessage → Option ParsedMessage → M (Unit {0})
check_existing msg none = done
check_existing msg (some existing) = do
  old_block ← lift (get_block existing)
  block ← lift (get_block msg)
  if not (old_block == block) then fail (PbftError.block_mismatch old_block block) else done

-- The end of `pre_prepare`, once the message is in the log.
unfoldable pub enter_preparing : Env → ParsedMessage → M (Unit {0})
unfolding switch_to stop
enter_preparing env msg = do
  s ← get_state
  when ((info msg).seq_num == s.seq_num) (do
    modify_state (switch_to PbftPhase.preparing)
    t ← now env
    modify_state (λ st. record st { faulty_primary_timeout = stop t st.faulty_primary_timeout }))

-- The steps of `pre_prepare` from the look at an existing `PrePrepare` on.
unfoldable pub accept_pre_prepare : Env → ParsedMessage → M (Unit {0})
accept_pre_prepare env msg = do
  existing ← reads_log (get_one_msg (info msg) PbftMessageType.pre_prepare)
  check_existing msg existing
  log_message msg
  enter_preparing env msg

-- Whether a logged `BlockNew` of the sequence number has the message's block.
unfoldable pub block_new_exists : ParsedMessage → PbftLog → Outcome Bool
block_new_exists msg log =
    any_block msg (get_messages_of_type_seq PbftMessageType.block_new (info msg).seq_num log)

-- `pre_prepare`.
unfoldable pub handle_pre_prepare : Env → ParsedMessage → M (Unit {0})
handle_pre_prepare env msg = do
  primary_id ← query_state get_primary_id
  if not ((info msg).signer_id == primary_id) then fail PbftError.not_from_primary else do
    announced ← query_log (block_new_exists msg)
    if not announced then fail PbftError.no_block_new else accept_pre_prepare env msg

-- `commit`.
unfoldable pub handle_commit : Env → ParsedMessage → M (Unit {0})
unfolding switch_to
handle_commit env msg = do
  block ← lift (get_block msg)
  committed ← request env (Call.commit_block block.block_id)
  if committed
      then modify_state (switch_to PbftPhase.finished)
      else fail (PbftError.internal_error "Failed to commit block")

unfoldable pub set_current_view : ℕ → PbftState → PbftState
set_current_view view s = record s { view = view }

unfoldable pub check_is_primary : PbftState → Outcome Bool
check_is_primary s = elim (get_primary_id s) [
  | ok p ↦ ok (s.id == p)
  | err e ↦ err e
  | panic ↦ panic
  | out_of_fuel ↦ out_of_fuel
]

-- Whether ignoring the working block succeeds has no effect.
unfoldable pub ignore_working_block : Env → Option PbftBlock → M (Unit {0})
ignore_working_block env none = done
ignore_working_block env (some block) = do
  ignored ← request env (Call.ignore_block block.block_id)
  done

unfoldable pub become_primary : Env → M (Unit {0})
unfolding upgrade_role ignore_working_block
become_primary env = do
  modify_state upgrade_role
  s ← get_state
  ignore_working_block env s.working_block
  initialized ← request env (Call.initialize_block none)
  done

unfoldable pub become_secondary : M (Unit {0})
unfolding downgrade_role
become_secondary = modify_state downgrade_role

-- The role that the new view gives this node.
unfoldable pub take_role : Env → M (Unit {0})
unfolding check_is_primary become_primary become_secondary
take_role env = do
  p ← query_state check_is_primary
  if p then become_primary env else become_secondary

unfoldable pub check_received_enough_view_changes : ParsedMessage → M Bool
check_received_enough_view_changes msg = do
  s ← get_state
  query_log (log_has_required_msgs PbftMessageType.view_change msg false (quorum s.f))

-- `view_change`, from the point where enough messages are there.
unfoldable pub adopt_view : Env → ParsedMessage → M (Unit {0})
unfolding set_current_view take_role discard_current_block
adopt_view env msg = do
  modify_state (set_current_view (info msg).view)
  take_role env
  t ← now env
  modify_state (discard_current_block t)

unfoldable pub handle_view_change : Env → ParsedMessage → M (Unit {0})
unfolding check_received_enough_view_changes adopt_view
handle_view_change env msg = do
  enough ← check_received_enough_view_changes msg
  if not enough then done else adopt_view env msg

unfoldable pub force_view_change : Env → M (Unit {0})
unfolding set_current_view take_role
force_view_change env = do
  s ← get_state
  modify_state (set_current_view (add64 s.view 1))
  take_role env

unfoldable pub make_msg_info : PbftMessageType → ℕ → ℕ → Bytes → PbftMessageInfo
make_msg_info t view seq id = record {
  msg_type = type_name t;
  view = view;
  seq_num = seq;
  signer_id = id;
}

-- The same function stands in src/node.rs, private.
unfoldable pub pbft_block_from_block : Block → PbftBlock
pbft_block_from_block b = record {
  block_id = b.block_id;
  signer_id = b.signer_id;
  block_num = b.block_num;
  summary = b.summary;
}
