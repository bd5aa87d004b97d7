-- ===== src/Log/OneSigner.antt =====
-- The counts of `check_committable` are of messages, not of signers.
use sawtooth_pbft.ParsedMessage.{PbftMessageWrapper, ParsedMessage, parsed_eq, info, get_block}
use sawtooth_pbft.MessageType.{PbftMessageType, type_eq, type_name}
use sawtooth_pbft.Common.{
  All, In, ==_refl, nat_eq, string_eq, Bytes, bytes_eq, ℕ, zero, suc, ◌≤◌, ◌<◌, ◌≡◌, refl, ap, ◌⊎◌,
  inl, inr, true, false, ◌&&◌, List, [], ◌∷◌, arith,
}
use sawtooth_pbft.Protos.{
  PbftBlock, PbftMessageInfo, block_eq, info_eq, message_eq, seal_eq, view_change_eq,
}
use sawtooth_pbft.Log.{
  entry_eq, PbftLog, is_type_seq_view, get_messages_of_type_seq_view, get_one_msg, quorum,
  check_committable,
}
use sawtooth_pbft.Log.Sets.{IsDistinct}
use sawtooth_pbft.State.{phase_eq}
use sawtooth_pbft.Log.Queries.{count, block_is, IsWellTyped, votes}
use sawtooth_pbft.Log.Voters.{signer}
use sawtooth_pbft.Log.Committable.{PrePrepared, check_committable_iff}
use sawtooth_pbft.Error.{ok}

module _ (i : PbftMessageInfo) (b : PbftBlock) (s : Bytes) where
  -- A message of a type for the block, with a signature of its own.
  abbrev ballot : PbftMessageType → Bytes → ParsedMessage
  ballot t signature = record {
    header_bytes = [];
    header_signature = signature;
    message = PbftMessageWrapper.message (record {
      info = record { msg_type = type_name t; view = i.view; seq_num = i.seq_num; signer_id = s };
      block = b;
    });
    message_bytes = [];
    from_self = false;
  }

  -- A `Prepare` and a `Commit`, so many times, each time signed anew.
  rounds : ℕ → List ParsedMessage
  rounds zero = []
  rounds (suc n) =
      ballot PbftMessageType.prepare (1 ∷ n ∷ [])
      ∷ ballot PbftMessageType.commit (2 ∷ n ∷ [])
      ∷ rounds n

  abbrev ballot_box : ℕ → PbftLog
  ballot_box n = record {
    messages = ballot PbftMessageType.pre_prepare [] ∷ rounds n;
    max_log_size = 0;
    backlog = [];
    seals = [];
  }

  -- The signature of a message is one of those rounds.
  abbrev IsFrom : ℕ → ParsedMessage → Type 0
  IsFrom n m =
      (k : ℕ) × (k < n) × ((m.header_signature ≡ 1 ∷ k ∷ []) ⊎ (m.header_signature ≡ 2 ∷ k ∷ []))

  rounds-IsFrom : (n : ℕ) (m : ParsedMessage) → In m (rounds n) → IsFrom n m
  unfolding rounds
  rounds-IsFrom zero m h = absurd h
  rounds-IsFrom (suc n) m (inl e) = (n, omega arith, inl (ap (λ k. k.header_signature) e))
  rounds-IsFrom (suc n) m (inr (inl e)) = (n, omega arith, inr (ap (λ k. k.header_signature) e))
  rounds-IsFrom (suc n) m (inr (inr h)) =
      let old = rounds-IsFrom n m h in (old.0, omega (arith, old.1), old.2)

  rounds-IsDistinct : (n : ℕ) → IsDistinct (rounds n)
  unfolding rounds
  rounds-IsDistinct zero = tt
  rounds-IsDistinct (suc n) = (first_new, (second_new, rounds-IsDistinct n))
    where
      second_new : ¬ In (ballot PbftMessageType.commit (2 ∷ n ∷ [])) (rounds n)
      second_new h =
          let old = rounds-IsFrom n (ballot PbftMessageType.commit (2 ∷ n ∷ [])) h in
          ground (arith, old)

      first_new :
          ¬ In
            (ballot PbftMessageType.prepare (1 ∷ n ∷ []))
            (ballot PbftMessageType.commit (2 ∷ n ∷ []) ∷ rounds n)
      first_new (inl e) = let f = ap (λ k. k.header_signature) e in ground (arith, f)
      first_new (inr h) =
          let old = rounds-IsFrom n (ballot PbftMessageType.prepare (1 ∷ n ∷ [])) h in
          ground (arith, old)

  counts :
      (t : PbftMessageType)
      → (signature : Bytes)
      → (is_type_seq_view t i.seq_num i.view (ballot t signature)
          && block_is b (ballot t signature))
        ≡ true
  unfolding is_type_seq_view info
  counts t signature = rw (==_refl (type_name t), ==_refl i.seq_num, ==_refl i.view) (==_refl b)

  -- Each round is one vote of each kind.
  votes-rounds :
      (t : PbftMessageType) (n : ℕ)
      → (t ≡ PbftMessageType.prepare) ⊎ (t ≡ PbftMessageType.commit)
      → n ≤ count (λ m. is_type_seq_view t i.seq_num i.view m && block_is b m) (rounds n)
  unfolding rounds
  votes-rounds t zero h = omega arith
  votes-rounds t (suc n) (inl e) =
      ground (arith, votes-rounds t n (inl e), e, counts PbftMessageType.prepare (1 ∷ n ∷ []))
  votes-rounds t (suc n) (inr e) =
      ground (arith, votes-rounds t n (inr e), e, counts PbftMessageType.commit (2 ∷ n ∷ []))

  rounds-signer : (n : ℕ) → All (λ m. signer m ≡ s) (rounds n)
  unfolding rounds info
  rounds-signer zero = tt
  rounds-signer (suc n) = (refl, (refl, rounds-signer n))

  rounds-IsWellTyped : (n : ℕ) → All IsWellTyped (rounds n)
  unfolding rounds get_block
  rounds-IsWellTyped zero = tt
  rounds-IsWellTyped (suc n) = (inr (b, refl), (inr (b, refl), rounds-IsWellTyped n))

  ballot_box-PrePrepared : (n : ℕ) → PrePrepared i (ballot_box n) b
  unfolding get_one_msg get_messages_of_type_seq_view is_type_seq_view info get_block
  ballot_box-PrePrepared n = record {
    first_msg = ballot PbftMessageType.pre_prepare [];
    is_first =
        rw (==_refl (type_name PbftMessageType.pre_prepare), ==_refl i.seq_num, ==_refl i.view)
          refl;
    carries = refl;
  }

  ballot_box-IsDistinct : (n : ℕ) → IsDistinct (ballot_box n).messages
  ballot_box-IsDistinct n = (unsigned, rounds-IsDistinct n)
    where
      unsigned : ¬ In (ballot PbftMessageType.pre_prepare []) (rounds n)
      unsigned h =
          let old = rounds-IsFrom n (ballot PbftMessageType.pre_prepare []) h in ground (arith, old)

  -- The quorum is one of messages, not of signers: for any view and sequence number, block, signer and
  -- number of faults there is a log of distinct and well-typed messages, all of them by that one signer,
  -- for which `check_committable` answers `true`.
  pub one_signer-check_committable :
      (f : ℕ)
      → (log : PbftLog) × IsDistinct log.messages
        × All (λ m. signer m ≡ s) log.messages
        × All IsWellTyped log.messages
        × (check_committable i f log ≡ ok true)
  unfolding info get_block
  one_signer-check_committable f =
      let n = quorum f in
      let typed : All IsWellTyped (ballot_box n).messages = (inr (b, refl), rounds-IsWellTyped n) in
      (
        ballot_box n,
        ballot_box-IsDistinct n,
        (refl, rounds-signer n),
        typed,
        (check_committable_iff i f (ballot_box n) typed).1.1 (
          b,
          ballot_box-PrePrepared n,
          enough PbftMessageType.prepare (inl refl) n,
          enough PbftMessageType.commit (inr refl) n,
        ),
      )
    where
      enough :
          (t : PbftMessageType)
          → (t ≡ PbftMessageType.prepare) ⊎ (t ≡ PbftMessageType.commit)
          → (n : ℕ) → n ≤ votes t i.seq_num i.view b (ballot_box n)
      enough t e n = ground (arith, votes-rounds t n e)
