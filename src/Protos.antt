-- ===== src/Protos.antt =====
-- The messages of protos/pbft_message.proto, as the code reads them: a field that is absent on the
-- wire reads as its default, so a record has every field.
-- Their equality is the field-by-field one that src/message_extensions.rs relies on; the generated one
-- also compares whether a field is present, and the unknown fields, which the records do not have.
use sawtooth_pbft.Common.{
  PartialEq, ◌==◌, ==_iff, nat_eq, string_eq, Bytes, bytes_eq, ℕ, String, ◌≡◌, ◌↔◌, Bool, true,
  false, ◌&&◌, List, [], ◌∷◌, arith,
}

pub record PbftBlock : Type 0 where
  pub block_id : Bytes
  pub signer_id : Bytes
  pub block_num : ℕ
  pub summary : Bytes

pub record PbftMessageInfo : Type 0 where
  pub msg_type : String
  pub view : ℕ
  pub seq_num : ℕ
  pub signer_id : Bytes

pub record PbftMessage : Type 0 where
  pub info : PbftMessageInfo
  pub block : PbftBlock

pub record PbftSignedCommitVote : Type 0 where
  pub header_bytes : Bytes
  pub header_signature : Bytes
  pub message_bytes : Bytes

pub record PbftSeal : Type 0 where
  pub previous_id : Bytes
  pub summary : Bytes
  pub previous_commit_votes : List PbftSignedCommitVote

pub record PbftViewChange : Type 0 where
  pub info : PbftMessageInfo
  pub seal : PbftSeal

-- The SDK's `ConsensusPeerMessageHeader`, the fields that the code reads.
pub record ConsensusPeerMessageHeader : Type 0 where
  pub signer_id : Bytes
  pub content_sha512 : Bytes

-- The SDK's `Block`.
pub record Block : Type 0 where
  pub block_id : Bytes
  pub previous_id : Bytes
  pub signer_id : Bytes
  pub block_num : ℕ
  pub payload : Bytes
  pub summary : Bytes

unfoldable pub block_beq : PbftBlock → PbftBlock → Bool
block_beq a b =
    a.block_id == b.block_id
    && (a.block_num == b.block_num && (a.summary == b.summary && a.signer_id == b.signer_id))

pub block_beq_iff : (a b : PbftBlock) → (block_beq a b ≡ true) ↔ (a ≡ b)
unfolding block_beq
block_beq_iff a b = ground (
  arith,
  ==_iff a.block_id b.block_id,
  ==_iff a.summary b.summary,
  ==_iff a.signer_id b.signer_id,
)

instance abbrev pub block_eq : PartialEq PbftBlock
block_eq = record { matches = block_beq; matches_iff = block_beq_iff }

unfoldable pub info_beq : PbftMessageInfo → PbftMessageInfo → Bool
info_beq a b =
    a.msg_type == b.msg_type
    && (a.view == b.view && (a.seq_num == b.seq_num && a.signer_id == b.signer_id))

pub info_beq_iff : (a b : PbftMessageInfo) → (info_beq a b ≡ true) ↔ (a ≡ b)
unfolding info_beq
info_beq_iff a b = ground (arith, ==_iff a.msg_type b.msg_type, ==_iff a.signer_id b.signer_id)

instance abbrev pub info_eq : PartialEq PbftMessageInfo
info_eq = record { matches = info_beq; matches_iff = info_beq_iff }

unfoldable pub message_beq : PbftMessage → PbftMessage → Bool
message_beq a b = a.info == b.info && a.block == b.block

pub message_beq_iff : (a b : PbftMessage) → (message_beq a b ≡ true) ↔ (a ≡ b)
unfolding message_beq
message_beq_iff a b = ground (arith, ==_iff a.info b.info, ==_iff a.block b.block)

instance abbrev pub message_eq : PartialEq PbftMessage
message_eq = record { matches = message_beq; matches_iff = message_beq_iff }

unfoldable pub vote_beq : PbftSignedCommitVote → PbftSignedCommitVote → Bool
vote_beq a b =
    a.header_bytes == b.header_bytes
    && (a.header_signature == b.header_signature && a.message_bytes == b.message_bytes)

pub vote_beq_iff : (a b : PbftSignedCommitVote) → (vote_beq a b ≡ true) ↔ (a ≡ b)
unfolding vote_beq
vote_beq_iff a b = ground (
  arith,
  ==_iff a.header_bytes b.header_bytes,
  ==_iff a.header_signature b.header_signature,
  ==_iff a.message_bytes b.message_bytes,
)

unfoldable pub votes_beq : List PbftSignedCommitVote → List PbftSignedCommitVote → Bool
votes_beq [] [] = true
votes_beq (x ∷ xs) (y ∷ ys) = vote_beq x y && votes_beq xs ys
votes_beq _ _ = false

pub votes_beq_iff : (a b : List PbftSignedCommitVote) → (votes_beq a b ≡ true) ↔ (a ≡ b)
unfolding votes_beq
votes_beq_iff [] [] = ground arith
votes_beq_iff [] (y ∷ ys) = ground arith
votes_beq_iff (x ∷ xs) [] = ground arith
votes_beq_iff (x ∷ xs) (y ∷ ys) = ground (arith, vote_beq_iff x y, votes_beq_iff xs ys)

unfoldable pub seal_beq : PbftSeal → PbftSeal → Bool
unfolding votes_beq
seal_beq a b =
    a.previous_id == b.previous_id
    && (a.summary == b.summary && votes_beq a.previous_commit_votes b.previous_commit_votes)

pub seal_beq_iff : (a b : PbftSeal) → (seal_beq a b ≡ true) ↔ (a ≡ b)
unfolding seal_beq
seal_beq_iff a b = ground (
  arith,
  ==_iff a.previous_id b.previous_id,
  ==_iff a.summary b.summary,
  votes_beq_iff a.previous_commit_votes b.previous_commit_votes,
)

instance abbrev pub seal_eq : PartialEq PbftSeal
seal_eq = record { matches = seal_beq; matches_iff = seal_beq_iff }

unfoldable pub view_change_beq : PbftViewChange → PbftViewChange → Bool
view_change_beq a b = a.info == b.info && a.seal == b.seal

pub view_change_beq_iff : (a b : PbftViewChange) → (view_change_beq a b ≡ true) ↔ (a ≡ b)
unfolding view_change_beq
view_change_beq_iff a b = ground (arith, ==_iff a.info b.info, ==_iff a.seal b.seal)

instance abbrev pub view_change_eq : PartialEq PbftViewChange
view_change_eq = record { matches = view_change_beq; matches_iff = view_change_beq_iff }
