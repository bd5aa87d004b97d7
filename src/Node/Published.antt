-- ===== src/Node/Published.antt =====
-- What `try_publish` publishes.
use sawtooth_pbft.Common.{nat_eq, string_eq, Bytes, bytes_eq, ◌≡◌, ◌⊎◌, ◌∷◌}
use sawtooth_pbft.Protos.{block_eq, info_eq, message_eq, seal_eq, view_change_eq}
use sawtooth_pbft.MessageType.{type_eq}
use sawtooth_pbft.ParsedMessage.{parsed_eq}
use sawtooth_pbft.State.{phase_eq}
use sawtooth_pbft.Log.{entry_eq}
use sawtooth_pbft.Service.{Call, Env}
use sawtooth_pbft.Node.{PbftNode}
use sawtooth_pbft.Node.Payloads.{IsPayload}

-- The node after a block with a payload for the summary was handed to the validator.
pub record Publishes (env : Env) (summary : Bytes) (n k : PbftNode) : Type 0 where
  pub payload : Bytes
  pub called : k.calls ≡ Call.finalize_block payload ∷ n.calls
  pub same_state : k.state ≡ n.state
  pub same_log : k.msg_log ≡ n.msg_log
  pub is_payload : IsPayload env summary n payload

module _ (env : Env) where
  abbrev HandsOver : Bytes → PbftNode → PbftNode → Type 0
  HandsOver summary n k = (k ≡ n) ⊎ Publishes env summary n k

  abbrev pub summarized : PbftNode → PbftNode
  summarized n = record n { calls = Call.summarize_block ∷ n.calls }
