-- ===== src/Node/Blocks.antt =====
-- src/node.rs: the updates about blocks, `on_block_commit` and `on_block_valid`.
use sawtooth_pbft.Common.{
  if◌then◌else◌, is_none, all, ◌==◌, nat_eq, string_eq, Bytes, bytes_eq, add64, ℕ, Bool, true,
  false, not, ◌&&◌, ◌||◌, Option, none, some, List, [], ◌∷◌,
}
use sawtooth_pbft.Protos.{PbftBlock, block_eq, info_eq, message_eq, seal_eq, view_change_eq}
use sawtooth_pbft.MessageType.{PbftMessageType, type_eq}
use sawtooth_pbft.Error.{PbftError, Outcome, ok, err, panic, out_of_fuel}
use sawtooth_pbft.ParsedMessage.{ParsedMessage, parsed_eq, get_block}
use sawtooth_pbft.Timing.{start}
use sawtooth_pbft.State.{
  PbftPhase, phase_eq, PbftState, max_faulty, is_primary, at_forced_view_change,
}
use sawtooth_pbft.Log.{entry_eq, contains, get_messages_of_type_seq, garbage_collect}
use sawtooth_pbft.Service.{Call, Env}
use sawtooth_pbft.Node.{
  M, ◌>>=◌, ◌>>◌, pure, lift, query_state, reads_log, done, get_state, modify_state, modify_log,
  when, request, now, switch_to,
}
use sawtooth_pbft.Handlers.{force_view_change}
use sawtooth_pbft.Node.Broadcast.{broadcast_pbft_message}
use sawtooth_pbft.Node.Seal.{peers_at}

-- Equality of two `HashSet`s, made of the lists.
unfoldable pub same_set : List Bytes → List Bytes → Bool
same_set xs ys = all (λ x. contains x ys) xs && all (λ y. contains y xs) ys

abbrev pub set_peers : List Bytes → PbftState → PbftState
set_peers peers s = record s { peer_ids = peers }

abbrev pub set_f : ℕ → PbftState → PbftState
set_f f s = record s { f = f }

-- `update_membership` where the peers have changed.
unfoldable pub take_peers : List Bytes → M Bool
unfolding max_faulty
take_peers peers = do
  modify_state (set_peers peers)
  if max_faulty peers == 0
      then lift panic
      else do modify_state (set_f (max_faulty peers)); pure true

unfoldable pub update_membership : Env → Bytes → M Bool
unfolding take_peers same_set peers_at
update_membership env id = do
  peers ← peers_at env id
  s ← get_state
  if same_set peers s.peer_ids then pure false else take_peers peers

unfoldable pub is_working_block : Bytes → PbftState → Bool
is_working_block id s = elim s.working_block [ none ↦ false | some block ↦ block.block_id == id ]

-- The block of the first `BlockNew` of a sequence number.
unfoldable pub first_block : List ParsedMessage → Outcome (Option PbftBlock)
first_block [] = ok none
first_block (m ∷ ms) = elim (get_block m) [
  | ok block ↦ ok (some block)
  | err e ↦ err e
  | panic ↦ panic
  | out_of_fuel ↦ out_of_fuel
]

abbrev pub set_working_block : Option PbftBlock → PbftState → PbftState
set_working_block b s = record s { working_block = b }

-- `state.seq_num += 1`, and the phase before it.
unfoldable pub next_block : PbftState → PbftState
unfolding switch_to
next_block s =
    let s' = switch_to PbftPhase.pre_preparing s in record s' { seq_num = add64 s'.seq_num 1 }

-- `state.at_forced_view_change() || self.update_membership(..)`.
unfoldable pub needs_view_change : Env → Bytes → M Bool
unfolding update_membership at_forced_view_change
needs_view_change env id = do
  forced ← query_state at_forced_view_change
  if forced then pure true else update_membership env id

unfoldable pub restart_timeout : Env → M (Unit {0})
unfolding start
restart_timeout env = do
  t ← now env
  modify_state (λ st. record st { faulty_primary_timeout = start t st.faulty_primary_timeout })

-- The last step of `on_block_commit`: the primary starts a block if it has none.
unfoldable pub start_block : Env → Bytes → M (Unit {0})
start_block env id = do
  s ← get_state
  if is_primary s && is_none s.working_block
      then (request env (Call.initialize_block (some id)) >>= λ started. done)
      else done

-- `on_block_commit` of the finished working block.
unfoldable pub finish_block : Env → Bytes → M (Unit {0})
unfolding next_block needs_view_change restart_timeout start_block first_block
finish_block env id = do
  modify_state next_block
  s ← get_state
  news ← reads_log (get_messages_of_type_seq PbftMessageType.block_new s.seq_num)
  block ← lift (first_block news)
  modify_state (set_working_block block)
  needed ← needs_view_change env id
  when needed (force_view_change env)
  s' ← get_state
  modify_log (garbage_collect s'.seq_num id)
  restart_timeout env
  start_block env id

unfoldable pub on_block_commit : Env → Bytes → M (Unit {0})
unfolding is_working_block
on_block_commit env id = do
  s ← get_state
  if not (s.phase == PbftPhase.finished) || not (is_working_block id s)
      then done
      else finish_block env id

-- The block that `on_block_valid` is about.
unfoldable pub validated_block : Bytes → PbftState → Outcome PbftBlock
validated_block id s = elim s.working_block [
  | none ↦ err PbftError.no_working_block
  | some block ↦ if block.block_id == id then ok block else err PbftError.not_ready_for_message
]

unfoldable pub on_block_valid : Env → (ParsedMessage → M (Unit {0})) → Bytes → M (Unit {0})
unfolding validated_block switch_to
on_block_valid env send id = do
  block ← query_state (validated_block id)
  modify_state (switch_to PbftPhase.committing)
  s ← get_state
  broadcast_pbft_message env send s.seq_num PbftMessageType.commit block
