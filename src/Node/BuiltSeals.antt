-- ===== src/Node/BuiltSeals.antt =====
-- How the seal that `build_seal` makes fares in the `verify_consensus_seal` of the other nodes.
use sawtooth_pbft.Outcome.{first_step, ◌>>=◌ as ◌then_do◌}
use sawtooth_pbft.Common.{
  rest, All, nat_eq, string_eq, Bytes, bytes_eq, ◌≡◌, sym, ap, ◌∙◌, subst, ◌↔◌, true, some, List,
  [], ◌∷◌, map,
}
use sawtooth_pbft.Protos.{
  PbftBlock, PbftMessage, PbftSeal, ConsensusPeerMessageHeader, block_eq, info_eq, message_eq,
  seal_eq, view_change_eq,
}
use sawtooth_pbft.MessageType.{type_eq}
use sawtooth_pbft.Error.{ok}
use sawtooth_pbft.Codec.{Codec}
use sawtooth_pbft.ParsedMessage.{ParsedMessage, parsed_eq, info, get_block}
use sawtooth_pbft.State.{phase_eq}
use sawtooth_pbft.Log.{entry_eq, insert}
use sawtooth_pbft.Node.Votes.{verify_consensus_vote, verify_votes}
use sawtooth_pbft.Node.Seal.{signed_vote, seal_of}
use sawtooth_pbft.Node.Sealing.{ok_injective, verify_consensus_vote_iff}
use sawtooth_pbft.Node.Payloads.{seal_of-ok}

-- A logged message whose bytes, header and signature are what its signer sent.
pub record IsSignedMessage (c : Codec) (m : ParsedMessage) : Type 0 where
  pub msg : PbftMessage
  pub header : ConsensusPeerMessageHeader
  pub key : Bytes
  pub is_message : c.parse_message m.message_bytes ≡ some msg
  pub is_header : c.parse_header m.header_bytes ≡ some header
  pub is_key : c.public_key header.signer_id ≡ some key
  pub has_context : c.create_context ≡ true
  pub is_signed : c.verify m.header_signature m.header_bytes key ≡ some true
  pub is_hashed : c.sha512 m.message_bytes ≡ header.content_sha512
  pub carries : get_block m ≡ ok msg.block
  pub names : info m ≡ msg.info

-- The message is about the block with this ID.
abbrev pub IsFor : Bytes → ParsedMessage → Type 0
IsFor id m = (b : PbftBlock) × ((get_block m ≡ ok b) × (b.block_id ≡ id))

-- The signers of the messages, each once.
abbrev pub signers : List ParsedMessage → List Bytes → List Bytes
signers [] ids = ids
signers (m ∷ ms) ids = signers ms (insert (info m).signer_id ids)

module _ (c : Codec) (seal : PbftSeal) where
  -- The vote of a signed message is accepted for its signer, if it is about the seal's block.
  signed_vote-accepted :
      (m : ParsedMessage)
      → IsSignedMessage c m
      → IsFor seal.previous_id m
      → verify_consensus_vote c (signed_vote m) seal ≡ ok (info m).signer_id
  unfolding signed_vote
  signed_vote-accepted m s (b, (carried, same)) =
      (verify_consensus_vote_iff c (signed_vote m) seal (info m).signer_id).1 (record {
        msg = s.msg;
        header = s.header;
        key = s.key;
        is_message = s.is_message;
        is_header = s.is_header;
        is_key = s.is_key;
        has_context = s.has_context;
        for_block = ap (λ x. x.block_id) (ok_injective (sym s.carries ∙ carried)) ∙ same;
        is_signed = s.is_signed;
        is_hashed = s.is_hashed;
        signer = sym (ap (λ i. i.signer_id) s.names);
      })

  some_injective : {x y : PbftMessage} → some x ≡ some y → x ≡ y
  some_injective e = cc

  signed_vote-IsFor :
      (m : ParsedMessage) (id : Bytes)
      → IsSignedMessage c m
      → verify_consensus_vote c (signed_vote m) seal ≡ ok id
      → IsFor seal.previous_id m × (id ≡ (info m).signer_id)
  unfolding signed_vote
  signed_vote-IsFor m id s h =
      let x = (verify_consensus_vote_iff c (signed_vote m) seal id).0 h in
      let same : x.msg ≡ s.msg = some_injective (sym x.is_message ∙ s.is_message) in
      (
        (s.msg.block, (s.carries, ap (λ k. k.block.block_id) (sym same) ∙ x.for_block)),
        sym x.signer ∙ ap (λ k. k.info.signer_id) same ∙ sym (ap (λ i. i.signer_id) s.names),
      )

  verify_votes-signed_iff :
      (ms : List ParsedMessage) (ids out : List Bytes)
      → All (IsSignedMessage c) ms
      → (verify_votes c seal (map signed_vote ms) ids ≡ ok out)
        ↔ (All (IsFor seal.previous_id) ms × (signers ms ids ≡ out))
  unfolding verify_votes
  verify_votes-signed_iff [] ids out s = (λ h. (tt, ok_injective h), λ h. ap ok h.1)
  verify_votes-signed_iff (m ∷ ms) ids out s = (
    λ h.
        let (id, (first_vote, others)) =
          first_step (verify_consensus_vote c (signed_vote m) seal)
            (λ id. verify_votes c seal (map signed_vote ms) (insert id ids)) h in
        let (about, named) = signed_vote-IsFor m id s.0 first_vote in
        let (rest, out_is) =
          (verify_votes-signed_iff ms (insert (info m).signer_id ids) out s.1).0 (
            subst (λ i. verify_votes c seal (map signed_vote ms) (insert i ids) ≡ ok out) named
              others) in
        ((about, rest), out_is),
    λ h.
        ap (λ r. r then_do λ id. verify_votes c seal (map signed_vote ms) (insert id ids))
          (signed_vote-accepted m s.0 h.0.0)
        ∙ (verify_votes-signed_iff ms (insert (info m).signer_id ids) out s.1).1 (h.0.1, h.1),
  )

-- A seal that `build_seal` makes from signed messages passes the check of its votes on other nodes
-- just when all the messages are about the block of the first one; the voters that are then counted
-- against `2f` are the distinct signers of the messages.
pub seal_of-verify_votes_iff :
    (c : Codec) (summary : Bytes) (ms : List ParsedMessage) (seal : PbftSeal) (ids : List Bytes)
    → seal_of summary ms ≡ ok seal
    → All (IsSignedMessage c) ms
    → (verify_votes c seal seal.previous_commit_votes [] ≡ ok ids)
      ↔ (All (IsFor seal.previous_id) ms × (signers ms [] ≡ ids))
seal_of-verify_votes_iff c summary ms seal ids made s =
    let (b, same) = seal_of-ok summary ms seal made in
    subst
      (λ vs.
        (verify_votes c seal vs [] ≡ ok ids)
        ↔ (All (IsFor seal.previous_id) ms × (signers ms [] ≡ ids)))
      (ap (λ x. x.previous_commit_votes) same) (verify_votes-signed_iff c seal ms [] ids s)
