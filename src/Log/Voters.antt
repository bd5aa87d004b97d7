-- ===== src/Log/Voters.antt =====
-- Who has voted: the signers behind the counts of `check_committable`.
use sawtooth_pbft.Common.{
  Bool-cases, length, filter, any, All, In, ◌==◌, ==_iff, nat_eq, string_eq, Bytes, bytes_eq,
  u64_mod, ℕ, ◌+◌, ◌*◌, ◌≤◌, ◌<◌, ◌≡◌, refl, ap, ◌↔◌, inl, inr, Bool, true, false, not, ◌&&◌, List,
  [], ◌∷◌, map, arith,
}
use sawtooth_pbft.Protos.{
  PbftBlock, PbftMessageInfo, block_eq, info_eq, message_eq, seal_eq, view_change_eq,
}
use sawtooth_pbft.MessageType.{PbftMessageType, type_eq}
use sawtooth_pbft.ParsedMessage.{ParsedMessage, parsed_eq, info}
use sawtooth_pbft.State.{phase_eq, max_faulty}
use sawtooth_pbft.Log.{entry_eq, PbftLog, is_type_seq_view, quorum}
use sawtooth_pbft.Log.Queries.{count, block_is}
use sawtooth_pbft.State.Quorum.{max_faulty_bounds}
use sawtooth_pbft.Log.Sets.{IsDistinct}
use sawtooth_pbft.Log.Committable.{HasQuorum}

-- How many peers of two sets are in both.
both-count :
    (p q : Bytes → Bool) (xs : List Bytes)
    → count p xs + count q xs ≤ length xs + count (λ s. p s && q s) xs
both-count p q [] = omega arith
both-count p q (x ∷ xs) = ground (arith, both-count p q xs)

count_mono :
    (p q : Bytes → Bool) (xs : List Bytes)
    → ((s : Bytes) → p s ≡ true → q s ≡ true)
    → count p xs ≤ count q xs
count_mono p q [] h = omega arith
count_mono p q (x ∷ xs) h = ground (arith, count_mono p q xs h, h x)

-- A set with one peer more is larger.
count_more :
    (p q : Bytes → Bool) (a : Bytes) (xs : List Bytes)
    → ((s : Bytes) → p s ≡ true → q s ≡ true)
    → p a ≡ false
    → q a ≡ true
    → In a xs
    → count p xs + 1 ≤ count q xs
count_more p q a (x ∷ xs) h new there (inl e) = ground (arith, count_mono p q xs h, ap p e, ap q e)
count_more p q a (x ∷ xs) h new there (inr i) =
    ground (arith, count_more p q a xs h new there i, h x)
count_more p q a [] h new there i = absurd i

abbrev pub signer : ParsedMessage → Bytes
signer m = (info m).signer_id

-- Whether a peer has signed one of the messages.
abbrev pub has_signed : List ParsedMessage → Bytes → Bool
has_signed ms s = any (λ m. signer m == s) ms

has_signed_iff :
    (ms : List ParsedMessage) (s : Bytes) → (has_signed ms s ≡ true) ↔ In s (map signer ms)
has_signed_iff [] s = ground arith
has_signed_iff (m ∷ ms) s = ground (arith, ==_iff (signer m) s, has_signed_iff ms s)

-- Messages of different signers, all of them peers, are no more than the peers that have signed one.
pub length-le-voters :
    (ms : List ParsedMessage) (peers : List Bytes)
    → IsDistinct (map signer ms)
    → All (λ m. In (signer m) peers) ms
    → length ms ≤ count (has_signed ms) peers
length-le-voters [] peers d h = omega arith
length-le-voters (m ∷ ms) peers d h = omega (
  arith,
  length-le-voters ms peers d.1 h.1,
  count_more (has_signed ms) (has_signed (m ∷ ms)) (signer m) peers (λ s e. ground (arith, e)) new
      (ground (arith, ==_iff (signer m) (signer m))) h.0,
)
  where
    new : has_signed ms (signer m) ≡ false
    new = elim (Bool-cases (has_signed ms (signer m))) [
      | inl e ↦ absurd (d.0 ((has_signed_iff ms (signer m)).0 e))
      | inr e ↦ e
    ]

-- The messages that a count of votes counts.
abbrev pub votes_for : PbftMessageType → PbftMessageInfo → PbftBlock → PbftLog → List ParsedMessage
votes_for t i b log =
    filter (λ m. is_type_seq_view t i.seq_num i.view m && block_is b m) log.messages

-- No peer is counted twice, and nobody else is counted.
pub record IsOneVoteEach (peers : List Bytes) (ms : List ParsedMessage) : Type 0 where
  pub distinct : IsDistinct (map signer ms)
  pub from_peers : All (λ m. In (signer m) peers) ms

-- Then the count is one of peers.
pub HasQuorum-voters :
    (t : PbftMessageType) (i : PbftMessageInfo) (f : ℕ) (log : PbftLog) (b : PbftBlock)
    (peers : List Bytes)
    → IsOneVoteEach peers (votes_for t i b log)
    → HasQuorum t i f log b
    → quorum f ≤ count (has_signed (votes_for t i b log)) peers
HasQuorum-voters t i f log b peers v h =
    omega (arith, length-le-voters (votes_for t i b log) peers v.distinct v.from_peers)

-- Two quorums of the peers share a member that is not faulty, if at most `f` are.
pub honest_member :
    (peers : List Bytes) (p q faulty : Bytes → Bool)
    → 4 ≤ length peers
    → length peers < u64_mod
    → length peers ≡ 3 * max_faulty peers + 1
    → quorum (max_faulty peers) ≤ count p peers
    → quorum (max_faulty peers) ≤ count q peers
    → count faulty peers ≤ max_faulty peers
    → (s : Bytes) × In s peers × (p s ≡ true) × (q s ≡ true) × (faulty s ≡ false)
honest_member peers p q faulty h k e hp hq few =
    let both = λ (s : Bytes). p s && q s in
    let bounds = max_faulty_bounds peers h k in member peers (omega (arith, both-count p q peers))
  where
    member :
        (xs : List Bytes)
        → count faulty xs < count (λ s. p s && q s) xs
        → (s : Bytes) × In s xs × (p s ≡ true) × (q s ≡ true) × (faulty s ≡ false)
    member [] lt = absurd (omega arith)
    member (x ∷ xs) lt = elim (Bool-cases ((p x && q x) && not (faulty x))) [
      | inl e ↦ (x, inl refl, ground (arith, e), ground (arith, e), ground (arith, e))
      | inr e ↦
          let found = member xs (ground (arith, e, lt)) in
          (found.0, inr found.1, found.2, found.3, found.4)
    ]
