-- ===== src/Examples/Steps.antt =====
-- The theorems about the timeout, the configuration and single steps of the node on concrete data.
use sawtooth_pbft.Common.{
  if◌then◌else◌, ◌==◌, nat_eq, string_eq, bytes_beq, bytes_eq, add64, ◌<◌, ◌≡◌, refl, ◌≢◌, ◌⊎◌,
  true, false, none, some, [], ◌∷◌,
}
use sawtooth_pbft.Protos.{block_eq, info_eq, message_eq, seal_eq, view_change_eq}
use sawtooth_pbft.MessageType.{PbftMessageType, type_eq, type_name}
use sawtooth_pbft.Error.{PbftError, ok, err}
use sawtooth_pbft.Codec.{Codec}
use sawtooth_pbft.ParsedMessage.{
  ParsedMessage, parsed_eq, info, verify_sha512, unless_view_change, or_view_change,
  from_peer_message, bare_peer_message,
}
use sawtooth_pbft.Config.{PbftConfig, default_config, Settings, decode_all, get_peers_from_settings}
use sawtooth_pbft.Config.Load.{merged, merge_settings, check_durations, load_pbft_config}
use sawtooth_pbft.Config.Loaded.{load_pbft_config-ok}
use sawtooth_pbft.State.{PbftPhase, phase_eq}
use sawtooth_pbft.Log.{entry_eq, only_seal, get_consensus_seal}
use sawtooth_pbft.Node.{PbftNode, done}
use sawtooth_pbft.Node.Broadcast.{propose_view_change}
use sawtooth_pbft.Node.Peer.{on_commit}
use sawtooth_pbft.Node.Blocks.{is_working_block, on_block_commit}
use sawtooth_pbft.Node.Commits.{CommitsOnce, on_commit_lem}
use sawtooth_pbft.Node.Proposals.{stuck, propose_view_change-unsealed}
use sawtooth_pbft.Node.Progress.{StartsAt, on_block_commit_lem}
use sawtooth_pbft.Examples.Codecs.{test_codec}
use sawtooth_pbft.Examples.Logs.{test_block, test_info, test_message}
use sawtooth_pbft.Examples.Nodes.{test_state, test_node, test_env}
use sawtooth_pbft.ParsedMessage.Wrapped.{IsBlockMessage, IsViewChange, from_peer_message-wrapped}

-- Settings that name a peer, whatever the key.
test_settings : Settings
test_settings key = if key == "sawtooth.consensus.pbft.peers" then some "peers" else none

abbrev test_config : PbftConfig
test_config = record default_config { peers = (1 ∷ []) ∷ [] }

load_pbft_config_example :
    ((settings : Settings) × (some test_settings ≡ some settings)
      × (get_peers_from_settings (λ s. some (s ∷ [])) (λ s. some (1 ∷ [])) settings
          ≡ ok ((1 ∷ []) ∷ [])))
    × (200 < 30000)
    × (test_config.storage ≡ default_config.storage)
unfolding load_pbft_config get_peers_from_settings decode_all check_durations merge_settings merged
    test_settings
load_pbft_config_example =
    load_pbft_config-ok (λ s. some (s ∷ [])) (λ s. some (1 ∷ [])) (some test_settings) test_config
      refl

-- A message whose text names the signer 2.
abbrev sender_codec : Codec
sender_codec = record test_codec {
  parse_message =
      λ b. some (record { info = test_info PbftMessageType.commit 0 2; block = test_block });
  sha512 = λ b. [];
}

-- What the codec reads from the bytes 5.
abbrev sent_message : ParsedMessage
sent_message = record (test_message PbftMessageType.commit 0 2) { message_bytes = 5 ∷ [] }

sent_message_received :
    from_peer_message sender_codec (bare_peer_message (5 ∷ [])) false ≡ ok sent_message
unfolding from_peer_message verify_sha512 unless_view_change or_view_change type_name bytes_beq info
sent_message_received = refl

from_peer_message-wrapped_example :
    (IsBlockMessage sender_codec (5 ∷ []) sent_message
      ⊎ IsViewChange sender_codec (5 ∷ []) sent_message)
    × (sent_message.message_bytes ≡ 5 ∷ [])
    × (false ≡ false → sender_codec.sha512 (5 ∷ []) ≡ [])
from_peer_message-wrapped_example =
    from_peer_message-wrapped sender_codec (bare_peer_message (5 ∷ [])) false sent_message
      sent_message_received

on_commit_example :
    ((on_commit test_env (test_message PbftMessageType.commit 0 3) test_node).1.calls ≡ [])
    ⊎ CommitsOnce
        (test_message PbftMessageType.commit 0 3)
        test_node
        (on_commit test_env (test_message PbftMessageType.commit 0 3) test_node).1
on_commit_example = on_commit_lem test_env (test_message PbftMessageType.commit 0 3) test_node

propose_view_change_example :
    (propose_view_change test_env (λ m. done) test_node
      ≡ (err (PbftError.wrong_num_seals 1 0), stuck test_node))
    × (propose_view_change test_env (λ m. done) (stuck test_node) ≡ (ok tt, stuck test_node))
unfolding get_consensus_seal only_seal
propose_view_change_example =
    propose_view_change-unsealed test_env (λ m. done) test_node (PbftError.wrong_num_seals 1 0) refl
      refl

abbrev finished_node : PbftNode
finished_node = record test_node { state = record test_state { phase = PbftPhase.finished } }

on_block_commit_example :
    (((PbftPhase.finished ≢ PbftPhase.finished)
        ⊎ (is_working_block (7 ∷ 7 ∷ 7 ∷ []) finished_node.state ≡ false))
      × (on_block_commit test_env (7 ∷ 7 ∷ 7 ∷ []) finished_node ≡ (ok tt, finished_node)))
    ⊎ ((PbftPhase.finished ≡ PbftPhase.finished)
        × (is_working_block (7 ∷ 7 ∷ 7 ∷ []) finished_node.state ≡ true)
        × StartsAt (add64 5 1) (on_block_commit test_env (7 ∷ 7 ∷ 7 ∷ []) finished_node).1)
on_block_commit_example = on_block_commit_lem test_env (7 ∷ 7 ∷ 7 ∷ []) finished_node
