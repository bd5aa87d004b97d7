-- ===== src/Node/Finishes.antt =====
-- From the last `Commit` message of a block to the next sequence number.
use sawtooth_pbft.Common.{nat_eq, string_eq, bytes_eq, ◌∷◌}
use sawtooth_pbft.Protos.{PbftBlock, block_eq, info_eq, message_eq, seal_eq, view_change_eq}
use sawtooth_pbft.ParsedMessage.{ParsedMessage, parsed_eq}
use sawtooth_pbft.State.{PbftPhase, phase_eq}
use sawtooth_pbft.Log.{entry_eq}
use sawtooth_pbft.Log.Sets.{with_message}
use sawtooth_pbft.Service.{Call}
use sawtooth_pbft.Node.{PbftNode}
use sawtooth_pbft.MessageType.{type_eq}

-- The node once its block is handed over.
abbrev pub finished_with : ParsedMessage → PbftBlock → PbftNode → PbftNode
finished_with msg b n = record n {
  state = record n.state { phase = PbftPhase.finished };
  msg_log = with_message msg n.msg_log;
  calls = Call.commit_block b.block_id ∷ n.calls;
}
