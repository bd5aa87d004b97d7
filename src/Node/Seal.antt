-- ===== src/Node/Seal.antt =====
-- src/node.rs: the consensus seal of a block, checked by `verify_consensus_seal` and made by
-- `build_seal`.
use sawtooth_pbft.Common.{
  ltb, if◌then◌else◌, length, first, filter, all, ◌==◌, nat_eq, string_eq, Bytes, bytes_eq, sub64,
  mul64, ℕ, String, not, Option, none, some, List, [], ◌∷◌, map,
}
use sawtooth_pbft.Protos.{
  PbftSignedCommitVote, PbftSeal, Block, block_eq, info_eq, message_eq, seal_eq, view_change_eq,
}
use sawtooth_pbft.MessageType.{PbftMessageType, type_eq}
use sawtooth_pbft.Error.{PbftError, Outcome, ok, err, panic, out_of_fuel}
use sawtooth_pbft.Config.{Settings, get_peers_from_settings}
use sawtooth_pbft.Outcome.{or_fail}
use sawtooth_pbft.ParsedMessage.{ParsedMessage, parsed_eq, get_block}
use sawtooth_pbft.State.{phase_eq}
use sawtooth_pbft.Log.{entry_eq, contains, get_enough_messages}
use sawtooth_pbft.Service.{Call, Env}
use sawtooth_pbft.Node.{M, ◌>>=◌, pure, fail, lift, reads_log, get_state}
use sawtooth_pbft.Node.Votes.{verify_votes, check_seal_fields}

-- The validator's settings at a block, with `expect`.
unfoldable pub get_settings : Env → Bytes → List String → M Settings
get_settings env id keys n = elim (env.service.settings n.calls id keys) [
  | none ↦ (panic, record n { calls = Call.get_settings id keys ∷ n.calls })
  | some s ↦ (ok s, record n { calls = Call.get_settings id keys ∷ n.calls })
]

-- The peers that the settings name at a block.
unfoldable pub peers_at : Env → Bytes → M (List Bytes)
unfolding get_settings
peers_at env id = do
  settings ← get_settings env id ("sawtooth.consensus.pbft.peers" ∷ [])
  lift (get_peers_from_settings env.json_strings env.hex_decode settings)

-- The test of the voters against `peers - primary` and against the `2f` that are needed.
unfoldable pub check_voters : Bytes → List Bytes → List Bytes → ℕ → Outcome (Unit {0})
check_voters signer peers voters f =
    if not (all (λ v. contains v (filter (λ p. not (p == signer)) peers)) voters)
    then err (PbftError.internal_error "Got unexpected vote IDs")
    else if ltb (length voters) (mul64 2 f)
    then err (PbftError.internal_error "Need more votes")
    else ok tt

-- `verify_consensus_seal` of a seal that was parsed.
unfoldable pub verify_parsed_seal : Env → Block → PbftSeal → M (Option PbftSeal)
unfolding peers_at check_voters check_seal_fields
verify_parsed_seal env block seal = do
  fields ← lift (check_seal_fields block seal)
  voters ← lift (verify_votes env.codec seal seal.previous_commit_votes [])
  peers ← peers_at env block.previous_id
  s ← get_state
  counted ← lift (check_voters block.signer_id peers voters s.f)
  pure (some seal)

unfoldable pub verify_consensus_seal : Env → Block → M (Option PbftSeal)
unfolding verify_parsed_seal
verify_consensus_seal env block =
    if ltb block.block_num 2
    then pure none
    else if block.payload == []
    then fail (PbftError.internal_error "Got empty payload for non-genesis block!")
    else do
      seal ← lift (or_fail PbftError.serialization_error (env.codec.parse_seal block.payload))
      verify_parsed_seal env block seal

-- The vote that a message becomes in a seal.
unfoldable pub signed_vote : ParsedMessage → PbftSignedCommitVote
signed_vote m = record {
  header_bytes = m.header_bytes;
  header_signature = m.header_signature;
  message_bytes = m.message_bytes;
}

-- The seal of `build_seal`, before it is written.
unfoldable pub seal_of : Bytes → List ParsedMessage → Outcome PbftSeal
unfolding signed_vote
seal_of summary messages = elim (first messages) [
  | none ↦ panic
  | some m ↦ elim (get_block m) [
    | ok block ↦ ok (record {
      previous_id = block.block_id;
      summary = summary;
      previous_commit_votes = map signed_vote messages;
    })
    | err e ↦ err e
    | panic ↦ panic
    | out_of_fuel ↦ out_of_fuel
  ]
]

unfoldable pub build_seal : Env → Bytes → M Bytes
unfolding seal_of
build_seal env summary = do
  s ← get_state
  found ← reads_log (get_enough_messages PbftMessageType.commit (sub64 s.seq_num 1) (mul64 2 s.f))
  messages ← lift (
      or_fail
        (PbftError.internal_error
          "Couldn't find commit messages in the message log for building a seal!")
        found)
  seal ← lift (seal_of summary messages)
  lift (or_fail PbftError.serialization_error (env.codec.write_seal seal))
