-- ===== src/Log/Quorums.antt =====
-- The logs of two nodes: what both hold for committable.
use sawtooth_pbft.Common.{
  Bool-cases, length, All, In, ◌==◌, ==_iff, nat_eq, string_eq, Bytes, bytes_eq, u64_mod, ℕ, ◌+◌,
  ◌*◌, ◌≤◌, ◌<◌, ◌≡◌, refl, sym, ap, ◌∙◌, inl, inr, Bool, true, false, ◌&&◌, List, [], ◌∷◌, arith,
}
use sawtooth_pbft.Protos.{
  PbftBlock, PbftMessageInfo, block_eq, info_eq, message_eq, seal_eq, view_change_eq,
}
use sawtooth_pbft.MessageType.{PbftMessageType, type_eq}
use sawtooth_pbft.Error.{ok}
use sawtooth_pbft.ParsedMessage.{
  PbftMessageWrapper, ParsedMessage, parsed_eq, wrapper_message, get_block,
}
use sawtooth_pbft.State.{phase_eq, max_faulty}
use sawtooth_pbft.Log.{entry_eq, PbftLog, is_type_seq_view, check_committable}
use sawtooth_pbft.Log.Queries.{count, In-filter, wrapped_block_is, block_is, IsWellTyped}
use sawtooth_pbft.Log.Committable.{PrePrepared, HasQuorum, check_committable-some}
use sawtooth_pbft.Log.Voters.{
  signer, has_signed, votes_for, IsOneVoteEach, HasQuorum-voters, honest_member,
}
use sawtooth_pbft.Outcome.{◌>>=◌}

block_is_of : (b : PbftBlock) (m : ParsedMessage) → block_is b m ≡ true → get_block m ≡ ok b
unfolding get_block
block_is_of b m h = wrapped m.message h
  where
    wrapped :
        (w : PbftMessageWrapper)
        → wrapped_block_is b w ≡ true
        → (wrapper_message w >>= λ msg. ok msg.block) ≡ ok b
    wrapped (PbftMessageWrapper.message k) e = ap ok ((==_iff k.block b).0 e)
    wrapped (PbftMessageWrapper.view_change k) e = cc

-- A peer that has signed a vote for a block has a logged message that says so.
signed_vote :
    (t : PbftMessageType) (i : PbftMessageInfo) (b : PbftBlock) (log : PbftLog) (s : Bytes)
    → has_signed (votes_for t i b log) s ≡ true
    → (m : ParsedMessage) × In m log.messages
      × (signer m ≡ s)
      × (is_type_seq_view t i.seq_num i.view m ≡ true)
      × (get_block m ≡ ok b)
signed_vote t i b log s h =
    let found = signed_by (votes_for t i b log) h in
    let kept =
      (In-filter (λ m. is_type_seq_view t i.seq_num i.view m && block_is b m) found.0
          log.messages).0
        found.1 in
    (
      found.0,
      kept.0,
      found.2,
      ground (arith, kept.1),
      block_is_of b found.0 (ground (arith, kept.1)),
    )
  where
    signed_by :
        (ms : List ParsedMessage)
        → has_signed ms s ≡ true
        → (m : ParsedMessage) × In m ms × (signer m ≡ s)
    signed_by [] e = cc
    signed_by (m ∷ ms) e = elim (Bool-cases (signer m == s)) [
      | inl here ↦ (m, inl refl, (==_iff (signer m) s).0 here)
      | inr other ↦
          let found = signed_by ms (ground (arith, e, other)) in (found.0, inr found.1, found.2)
    ]

-- In a committable log the block of the first `PrePrepare` has a quorum of commits.
committable-HasQuorum :
    (i : PbftMessageInfo) (f : ℕ) (log : PbftLog) (b : PbftBlock)
    → All IsWellTyped log.messages
    → PrePrepared i log b
    → check_committable i f log ≡ ok true
    → HasQuorum PbftMessageType.commit i f log b
committable-HasQuorum i f log b w pp h =
    ground (arith, sym (check_committable-some i f log w b pp) ∙ h)

-- Two nodes never hold different blocks for committable at one view and sequence number, if the
-- messages of their logs are well-typed, there are exactly `3f + 1` peers, at most `f` of which are
-- faulty, the counted commits of each log are of different peers, and each peer that is not faulty
-- names one block in all its commits of that view and sequence number.
pub check_committable-same_block :
    (peers : List Bytes) (faulty : Bytes → Bool) (i : PbftMessageInfo) (log log' : PbftLog)
    (b b' : PbftBlock)
    → 4 ≤ length peers
    → length peers < u64_mod
    → length peers ≡ 3 * max_faulty peers + 1
    → count faulty peers ≤ max_faulty peers
    → All IsWellTyped log.messages
    → All IsWellTyped log'.messages
    → IsOneVoteEach peers (votes_for PbftMessageType.commit i b log)
    → IsOneVoteEach peers (votes_for PbftMessageType.commit i b' log')
    → ((m m' : ParsedMessage) (c c' : PbftBlock)
        → In m log.messages
        → In m' log'.messages
        → faulty (signer m) ≡ false
        → signer m ≡ signer m'
        → is_type_seq_view PbftMessageType.commit i.seq_num i.view m ≡ true
        → is_type_seq_view PbftMessageType.commit i.seq_num i.view m' ≡ true
        → get_block m ≡ ok c
        → get_block m' ≡ ok c'
        → c ≡ c')
    → PrePrepared i log b
    → PrePrepared i log' b'
    → check_committable i (max_faulty peers) log ≡ ok true
    → check_committable i (max_faulty peers) log' ≡ ok true
    → b ≡ b'
check_committable-same_block peers faulty i log log' b b' h k e few w w' v v' once pp pp' c c' =
    let f = max_faulty peers in
    let t = PbftMessageType.commit in
    let found =
      honest_member peers (has_signed (votes_for t i b log)) (has_signed (votes_for t i b' log'))
        faulty h k e (HasQuorum-voters t i f log b peers v (committable-HasQuorum i f log b w pp c))
        (HasQuorum-voters t i f log' b' peers v' (committable-HasQuorum i f log' b' w' pp' c'))
        few in
    let vote = signed_vote t i b log found.0 found.2 in
    let vote' = signed_vote t i b' log' found.0 found.3 in
    once vote.0 vote'.0 b b' vote.1 vote'.1 (ap faulty vote.2 ∙ found.4) (vote.2 ∙ sym vote'.2)
      vote.3 vote'.3 vote.4 vote'.4
