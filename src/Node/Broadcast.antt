-- ===== src/Node/Broadcast.antt =====
-- src/node.rs: messages sent to the peers and to the node itself. `send` is `on_peer_message`, which
-- the node calls on its own messages.
use sawtooth_pbft.Common.{
  if◌then◌else◌, ◌==◌, nat_eq, string_eq, Bytes, bytes_eq, add64, sub64, ℕ, not, ◌&&◌, none, some,
  [],
}
use sawtooth_pbft.Protos.{
  PbftBlock, PbftMessageInfo, PbftSeal, PbftViewChange, block_eq, info_eq, message_eq, seal_eq,
  view_change_eq,
}
use sawtooth_pbft.MessageType.{PbftMessageType, type_eq, is_multicast, type_name}
use sawtooth_pbft.Error.{PbftError}
use sawtooth_pbft.Outcome.{or_fail}
use sawtooth_pbft.ParsedMessage.{ParsedMessage, parsed_eq, from_bytes}
use sawtooth_pbft.State.{PbftMode, phase_eq, is_view_changing, PbftState, check_msg_type}
use sawtooth_pbft.Log.{entry_eq, get_consensus_seal}
use sawtooth_pbft.Service.{Call, Env}
use sawtooth_pbft.Node.{M, ◌>>=◌, ◌>>◌, lift, query_log, done, get_state, modify_state, request}
use sawtooth_pbft.Handlers.{make_msg_info}

-- `make_msg_bytes(..).unwrap_or_default()`.
unfoldable pub make_msg_bytes : Env → PbftMessageInfo → PbftBlock → Bytes
make_msg_bytes env i block = elim (env.codec.write_message (record { info = i; block = block })) [
  | none ↦ []
  | some bytes ↦ bytes
]

-- The message of `propose_view_change`.
unfoldable pub view_change_message : PbftState → PbftSeal → PbftViewChange
unfolding make_msg_info
view_change_message s seal = record {
  info = make_msg_info PbftMessageType.view_change (add64 s.view 1) (sub64 s.seq_num 1) s.id;
  seal = seal;
}

abbrev pub set_mode : PbftMode → PbftState → PbftState
set_mode mode s = record s { mode = mode }

module _ (env : Env) (send : ParsedMessage → M (Unit {0})) where
  -- `_broadcast_message`: a failed broadcast is only reported.
  unfoldable pub broadcast_message : PbftMessageType → Bytes → M (Unit {0})
  unfolding from_bytes
  broadcast_message t bytes = do
    sent ← request env (Call.broadcast (type_name t) bytes)
    parsed ← lift (from_bytes env.codec bytes)
    send parsed

  -- `_broadcast_pbft_message`: a multicast message of another type than the phase's is not sent.
  unfoldable pub broadcast_pbft_message : ℕ → PbftMessageType → PbftBlock → M (Unit {0})
  unfolding broadcast_message make_msg_bytes make_msg_info check_msg_type
  broadcast_pbft_message seq t block = do
    s ← get_state
    if is_multicast t && not (t == check_msg_type s)
        then done
        else broadcast_message t (make_msg_bytes env (make_msg_info t s.view seq s.id) block)

  -- The end of `propose_view_change`: the message for the state before it, with the seal found.
  unfoldable pub send_view_change : PbftState → PbftSeal → M (Unit {0})
  unfolding broadcast_message view_change_message
  send_view_change s seal = do
    bytes ← lift (
        or_fail PbftError.serialization_error
          (env.codec.write_view_change (view_change_message s seal)))
    broadcast_message PbftMessageType.view_change bytes

  unfoldable pub propose_view_change : M (Unit {0})
  propose_view_change = do
    s ← get_state
    if is_view_changing s.mode then done else do
      modify_state (set_mode PbftMode.view_changing)
      seal ← query_log (get_consensus_seal (sub64 s.seq_num 1))
      send_view_change s seal
