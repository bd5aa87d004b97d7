-- ===== src/Engine/Updates.antt =====
-- What the engine does with the messages of peers.
use sawtooth_pbft.Common.{==_iff, nat_eq, string_eq, Bytes, bytes_eq, ◌≡◌, ◌≢◌, false, arith}
use sawtooth_pbft.Protos.{block_eq, info_eq, message_eq, seal_eq, view_change_eq}
use sawtooth_pbft.MessageType.{type_eq}
use sawtooth_pbft.Error.{PbftError, ok, err}
use sawtooth_pbft.ParsedMessage.{ParsedMessage, parsed_eq, info, PeerMessage, from_peer_message}
use sawtooth_pbft.State.{phase_eq}
use sawtooth_pbft.Log.{entry_eq}
use sawtooth_pbft.Service.{Env}
use sawtooth_pbft.Node.{PbftNode, M}
use sawtooth_pbft.Engine.{Update, receive, handle_update}

-- A message that names another signer than its sender is refused with an error, and the node stays
-- as it is.
pub handle_update_mismatch :
    (env : Env) (send : ParsedMessage → M (Unit {0})) (m : PeerMessage) (msg : ParsedMessage)
    (sender : Bytes) (n : PbftNode)
    → from_peer_message env.codec m false ≡ ok msg
    → (info msg).signer_id ≢ sender
    → handle_update env send (Update.peer_message m sender) n
      ≡ (err (PbftError.internal_error "Mismatch between sender ID and signer ID"), n)
unfolding handle_update receive
handle_update_mismatch env send m msg sender n e ne =
    rw e (ground (arith, ==_iff (info msg).signer_id sender, ne))
