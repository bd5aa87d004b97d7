-- ===== src/Hashes/Law.antt =====
-- The law between `Hash` and `Eq`, and what a hash tells of a message.
use sawtooth_pbft.Common.{
  ◌==◌, ==_iff, nat_eq, string_eq, bytes_eq, ◌≡◌, refl, sym, ap, ◌↔◌, true, List, [], ◌∷◌, arith,
}
use sawtooth_pbft.Protos.{
  PbftMessage, PbftSignedCommitVote, PbftViewChange, block_eq, info_eq, message_eq, seal_eq,
  view_change_eq,
}
use sawtooth_pbft.MessageType.{type_eq}
use sawtooth_pbft.ParsedMessage.{PbftMessageWrapper, ParsedMessage, parsed_eq}
use sawtooth_pbft.Hashes.{hash_message, hash_votes, hash_view_change, hash_wrapper, hash_parsed}

hash_votes_injective : (vs ws : List PbftSignedCommitVote) → hash_votes vs ≡ hash_votes ws → vs ≡ ws
unfolding hash_votes
hash_votes_injective [] [] h = refl
hash_votes_injective [] (w ∷ ws) h = cc
hash_votes_injective (v ∷ vs) [] h = cc
hash_votes_injective (v ∷ vs) (w ∷ ws) h = ground (arith, hash_votes_injective vs ws)

hash_message_injective : (m k : PbftMessage) → hash_message m ≡ hash_message k → m ≡ k
unfolding hash_message
hash_message_injective m k h = ground arith

hash_view_change_injective :
    (v w : PbftViewChange) → hash_view_change v ≡ hash_view_change w → v ≡ w
unfolding hash_view_change
hash_view_change_injective v w h =
    ground (arith, hash_votes_injective v.seal.previous_commit_votes w.seal.previous_commit_votes)

-- After the fields of the info, a block goes on with a byte string and two numbers, a seal with a byte
-- string, a number and what is written of that length.
hash_apart : (m : PbftMessage) (v : PbftViewChange) → ¬ (hash_message m ≡ hash_view_change v)
unfolding hash_message hash_view_change
hash_apart m v h = ground arith

hash_wrapper_injective : (m k : PbftMessageWrapper) → hash_wrapper m ≡ hash_wrapper k → m ≡ k
unfolding hash_wrapper
hash_wrapper_injective (PbftMessageWrapper.message m) (PbftMessageWrapper.message k) h =
    ap PbftMessageWrapper.message (hash_message_injective m k h)
hash_wrapper_injective (PbftMessageWrapper.view_change v) (PbftMessageWrapper.view_change w) h =
    ap PbftMessageWrapper.view_change (hash_view_change_injective v w h)
hash_wrapper_injective (PbftMessageWrapper.message m) (PbftMessageWrapper.view_change v) h =
    absurd (hash_apart m v h)
hash_wrapper_injective (PbftMessageWrapper.view_change v) (PbftMessageWrapper.message m) h =
    absurd (hash_apart m v (sym h))

-- Messages that are equal make the same calls of the hasher, as a `HashSet` needs; and two messages make
-- the same calls exactly if the messages in them have the same fields, whatever their headers,
-- signatures and bytes.
pub hash_parsed_iff :
    (m k : ParsedMessage)
    → ((m == k) ≡ true → hash_parsed m ≡ hash_parsed k)
      × ((hash_parsed m ≡ hash_parsed k) ↔ (m.message ≡ k.message))
unfolding hash_parsed
hash_parsed_iff m k = (
  λ same. ap hash_parsed ((==_iff m k).0 same),
  (λ h. hash_wrapper_injective m.message k.message h, λ e. ap hash_wrapper e),
)
