-- ===== src/Node/Votes.antt =====
-- src/node.rs: `verify_consensus_vote`, and the parts of `verify_consensus_seal` that look at the seal
-- alone.
use sawtooth_pbft.Common.{
  ltb, if◌then◌else◌, length, ◌==◌, nat_eq, string_eq, Bytes, bytes_eq, Bool, true, false, not,
  ◌||◌, Option, none, some, List, [], ◌∷◌,
}
use sawtooth_pbft.Protos.{
  PbftSignedCommitVote, PbftSeal, Block, block_eq, info_eq, message_eq, seal_eq, view_change_eq,
}
use sawtooth_pbft.Error.{PbftError, Outcome, ok, err, panic}
use sawtooth_pbft.Codec.{Codec}
use sawtooth_pbft.Outcome.{◌>>=◌, or_panic, or_fail}
use sawtooth_pbft.ParsedMessage.{ParsedMessage, parsed_eq, from_pbft_message, verify_sha512}
use sawtooth_pbft.Log.{entry_eq, insert}

-- The answer of `context.verify`.
unfoldable pub check_verified : Option Bool → Outcome (Unit {0})
check_verified (some true) = ok tt
check_verified (some false) = err (PbftError.internal_error "Header failed verification!")
check_verified none = err (PbftError.internal_error "Error while verifying header")

unfoldable pub verify_consensus_vote : Codec → PbftSignedCommitVote → PbftSeal → Outcome Bytes
unfolding check_verified verify_sha512
verify_consensus_vote c vote seal = do
  msg ← or_fail PbftError.serialization_error (c.parse_message vote.message_bytes)
  same ←
      if msg.block.block_id == seal.previous_id
      then ok tt
      else err (PbftError.internal_error "PbftMessage block ID doesn't match seal's previous id!")
  header ← or_fail PbftError.serialization_error (c.parse_header vote.header_bytes)
  key ← or_panic (c.public_key header.signer_id)
  context ←
      if c.create_context then ok tt else err (PbftError.internal_error "Couldn't create context")
  signed ← check_verified (c.verify vote.header_signature vote.header_bytes key)
  hashed ← verify_sha512 c vote.message_bytes header.content_sha512
  ok msg.info.signer_id

-- The `try_fold` over the votes, from a set of voters.
unfoldable pub verify_votes :
    Codec → PbftSeal → List PbftSignedCommitVote → List Bytes → Outcome (List Bytes)
unfolding insert
verify_votes c seal [] ids = ok ids
verify_votes c seal (v ∷ vs) ids =
    verify_consensus_vote c v seal >>= λ id. verify_votes c seal vs (insert id ids)

-- The comparisons of the seal with the block. The text of the first error takes three bytes of each
-- ID, and panics on a shorter one.
unfoldable pub check_seal_fields : Block → PbftSeal → Outcome (Unit {0})
check_seal_fields block seal =
    if not (seal.previous_id == block.previous_id)
    then (if ltb (length seal.previous_id) 3 || ltb (length block.previous_id) 3
        then panic
        else err (PbftError.internal_error "Consensus seal failed verification. previous ID"))
    else if not (seal.summary == block.summary)
    then err (PbftError.internal_error "Consensus seal failed verification. summary")
    else ok tt

-- The messages of a seal's votes, as `catchup` reads them.
unfoldable pub seal_messages : Codec → List PbftSignedCommitVote → Outcome (List ParsedMessage)
seal_messages c [] = ok []
seal_messages c (v ∷ vs) = do
  m ← or_fail PbftError.serialization_error (c.parse_message v.message_bytes)
  msg ← from_pbft_message c m
  msgs ← seal_messages c vs
  ok (msg ∷ msgs)
