-- ===== src/Examples/Seals.antt =====
-- A block whose seal has two votes, and the theorems about seals applied to it.
use sawtooth_pbft.Common.{
  if◌then◌else◌, All, ◌==◌, nat_eq, string_eq, Bytes, bytes_beq, bytes_eq, ℕ, String, ◌≡◌, refl,
  ◌↔◌, false, some, [], ◌∷◌,
}
use sawtooth_pbft.Protos.{
  PbftSignedCommitVote, PbftSeal, Block, block_eq, info_eq, message_eq, seal_eq, view_change_eq,
}
use sawtooth_pbft.MessageType.{PbftMessageType, type_eq}
use sawtooth_pbft.Codec.{Codec}
use sawtooth_pbft.ParsedMessage.{
  PbftMessageWrapper, ParsedMessage, parsed_eq, wrapper_info, info, wrapper_message,
  get_pbft_message, get_block, verify_sha512,
}
use sawtooth_pbft.Config.{decode_all, get_peers_from_settings}
use sawtooth_pbft.State.{PbftNodeRole, phase_eq}
use sawtooth_pbft.Log.{entry_eq, contains, insert}
use sawtooth_pbft.Service.{Env}
use sawtooth_pbft.Node.Votes.{
  check_verified, verify_consensus_vote, verify_votes, check_seal_fields,
}
use sawtooth_pbft.Node.Seal.{
  get_settings, peers_at, check_voters, verify_parsed_seal, verify_consensus_seal, signed_vote,
  seal_of,
}
use sawtooth_pbft.Node.Sealing.{IsChecked, verify_consensus_vote_iff}
use sawtooth_pbft.Node.Sealed.{IsVerified, verify_consensus_seal-IsVerified}
use sawtooth_pbft.Examples.Codecs.{test_codec}
use sawtooth_pbft.Examples.Logs.{test_block, test_info}
use sawtooth_pbft.Examples.Nodes.{test_state, test_node, test_env}
use sawtooth_pbft.Error.{ok}
use sawtooth_pbft.Node.{PbftNode}
use sawtooth_pbft.Node.BuiltSeals.{IsSignedMessage, IsFor, signers, seal_of-verify_votes_iff}

abbrev signed_by : ℕ → PbftSignedCommitVote
signed_by i = record { header_bytes = i ∷ []; header_signature = []; message_bytes = i ∷ [] }

abbrev full_seal : PbftSeal
full_seal = record {
  previous_id = 7 ∷ 7 ∷ 7 ∷ [];
  summary = 9 ∷ [];
  previous_commit_votes = signed_by 2 ∷ signed_by 3 ∷ [];
}

abbrev sealed_block : Block
sealed_block = record {
  block_id = 8 ∷ 8 ∷ 8 ∷ [];
  previous_id = 7 ∷ 7 ∷ 7 ∷ [];
  signer_id = 1 ∷ [];
  block_num = 6;
  payload = 1 ∷ [];
  summary = 9 ∷ [];
}

-- Each text is the message of the signer that it names, and its own hash.
abbrev seal_codec : Codec
seal_codec = record test_codec {
  parse_message = λ b. some (record {
    info = record (test_info PbftMessageType.commit 0 2) { signer_id = b };
    block = test_block;
  });
  parse_seal = λ b. some full_seal;
}

peer_of : String → Bytes
peer_of s =
    if s == "a" then 1 ∷ [] else if s == "b" then 2 ∷ [] else if s == "c" then 3 ∷ [] else 4 ∷ []

abbrev seal_env : Env
seal_env = record test_env {
  codec = seal_codec;
  json_strings = λ s. some ("a" ∷ "b" ∷ "c" ∷ "d" ∷ []);
  hex_decode = λ s. some (peer_of s);
}

verify_consensus_vote_example :
    (verify_consensus_vote seal_codec (signed_by 2) full_seal ≡ ok (2 ∷ []))
    ↔ IsChecked seal_codec (signed_by 2) full_seal (2 ∷ [])
verify_consensus_vote_example =
    verify_consensus_vote_iff seal_codec (signed_by 2) full_seal (2 ∷ [])

verify_consensus_seal_example :
    (seal_codec.parse_seal (1 ∷ []) ≡ some full_seal)
    × IsVerified seal_env sealed_block full_seal test_node
unfolding verify_consensus_seal verify_parsed_seal verify_votes verify_consensus_vote check_verified
    verify_sha512 check_seal_fields check_voters peers_at get_settings get_peers_from_settings
    decode_all insert contains bytes_beq peer_of
verify_consensus_seal_example =
    verify_consensus_seal-IsVerified seal_env sealed_block full_seal test_node _ refl

-- The message of a signer that the codec reads.
abbrev message_by : ℕ → ParsedMessage
message_by i = record {
  header_bytes = i ∷ [];
  header_signature = [];
  message = PbftMessageWrapper.message (record {
    info = record (test_info PbftMessageType.commit 0 2) { signer_id = i ∷ [] };
    block = test_block;
  });
  message_bytes = i ∷ [];
  from_self = false;
}

message_by-IsSignedMessage : (i : ℕ) → IsSignedMessage seal_codec (message_by i)
unfolding info wrapper_info get_block get_pbft_message wrapper_message
message_by-IsSignedMessage i = record {
  msg = record {
    info = record (test_info PbftMessageType.commit 0 2) { signer_id = i ∷ [] };
    block = test_block;
  };
  header = record { signer_id = i ∷ []; content_sha512 = i ∷ [] };
  key = i ∷ [];
  is_message = refl;
  is_header = refl;
  is_key = refl;
  has_context = refl;
  is_signed = refl;
  is_hashed = refl;
  carries = refl;
  names = refl;
}

made_seal : seal_of (9 ∷ []) (message_by 2 ∷ message_by 3 ∷ []) ≡ ok full_seal
unfolding seal_of signed_vote get_block get_pbft_message wrapper_message
made_seal = refl

seal_of-verify_votes_example :
    (verify_votes seal_codec full_seal full_seal.previous_commit_votes []
      ≡ ok ((2 ∷ []) ∷ (3 ∷ []) ∷ []))
    ↔ (All (IsFor full_seal.previous_id) (message_by 2 ∷ message_by 3 ∷ [])
        × (signers (message_by 2 ∷ message_by 3 ∷ []) [] ≡ (2 ∷ []) ∷ (3 ∷ []) ∷ []))
seal_of-verify_votes_example =
    seal_of-verify_votes_iff seal_codec (9 ∷ []) (message_by 2 ∷ message_by 3 ∷ []) full_seal
      ((2 ∷ []) ∷ (3 ∷ []) ∷ []) made_seal
      (message_by-IsSignedMessage 2, (message_by-IsSignedMessage 3, tt))

-- A primary that waits for its first block.
abbrev first_primary : PbftNode
first_primary = record test_node {
  state = record test_state { role = PbftNodeRole.primary; seq_num = 1 };
}
