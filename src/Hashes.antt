-- ===== src/Hashes.antt =====
-- The `Hash` instances of src/message_extensions.rs and of `ParsedMessage` in src/message_type.rs, by
-- which a `HashSet` finds its entries, as the calls of the `Hasher` that they make. A text is written
-- with the byte 255 behind it, and a byte string with its length before it, which is a number like any
-- other. A hasher is free to make the same of different calls: one that only sees the bytes cannot tell
-- a number from eight bytes that are written.
pub mod Law
use sawtooth_pbft.Common.{length, rest, Bytes, ℕ, String, List, [], ◌∷◌, ◌++◌}
use sawtooth_pbft.Protos.{
  PbftBlock, PbftMessageInfo, PbftMessage, PbftSignedCommitVote, PbftSeal, PbftViewChange,
}
use sawtooth_pbft.ParsedMessage.{PbftMessageWrapper, ParsedMessage}

pub data HashWrite : Type 0 where
  text : String → HashWrite
  byte : ℕ → HashWrite
  number : ℕ → HashWrite
  bytes : Bytes → HashWrite

-- A `Vec<u8>`.
abbrev hash_bytes : Bytes → List HashWrite → List HashWrite
hash_bytes b rest = HashWrite.number (length b) ∷ HashWrite.bytes b ∷ rest

unfoldable pub hash_info : PbftMessageInfo → List HashWrite
hash_info i =
    HashWrite.text i.msg_type
    ∷ HashWrite.byte 255
    ∷ HashWrite.number i.view
    ∷ HashWrite.number i.seq_num
    ∷ hash_bytes i.signer_id []

unfoldable pub hash_block : PbftBlock → List HashWrite
hash_block b =
    hash_bytes b.block_id
      (HashWrite.number b.block_num ∷ hash_bytes b.summary (hash_bytes b.signer_id []))

unfoldable pub hash_message : PbftMessage → List HashWrite
unfolding hash_info hash_block
hash_message m = hash_info m.info ++ hash_block m.block

unfoldable pub hash_vote : PbftSignedCommitVote → List HashWrite
hash_vote v =
    hash_bytes v.header_bytes (hash_bytes v.header_signature (hash_bytes v.message_bytes []))

-- `for vote in self.get_previous_commit_votes()`.
unfoldable pub hash_votes : List PbftSignedCommitVote → List HashWrite
unfolding hash_vote
hash_votes [] = []
hash_votes (v ∷ vs) = hash_vote v ++ hash_votes vs

unfoldable pub hash_seal : PbftSeal → List HashWrite
unfolding hash_votes
hash_seal s = hash_bytes s.previous_id (hash_bytes s.summary (hash_votes s.previous_commit_votes))

unfoldable pub hash_view_change : PbftViewChange → List HashWrite
unfolding hash_info hash_seal
hash_view_change v = hash_info v.info ++ hash_seal v.seal

unfoldable pub hash_wrapper : PbftMessageWrapper → List HashWrite
unfolding hash_message hash_view_change
hash_wrapper (PbftMessageWrapper.message m) = hash_message m
hash_wrapper (PbftMessageWrapper.view_change v) = hash_view_change v

unfoldable pub hash_parsed : ParsedMessage → List HashWrite
unfolding hash_wrapper
hash_parsed m = hash_wrapper m.message
