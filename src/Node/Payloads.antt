-- ===== src/Node/Payloads.antt =====
-- What a node puts into a block: nothing, or a seal of the commits of the previous block.
use sawtooth_pbft.Common.{
  leb, if◌then◌else◌, Bool-cases, Bytes, sub64, mul64, ℕ, ◌≤◌, ◌<◌, ◌≡◌, refl, sym, ap, ◌∙◌, subst,
  ◌⊎◌, inl, inr, true, false, none, some, List, [], ◌∷◌, map, arith,
}
use sawtooth_pbft.Protos.{PbftBlock, PbftSeal}
use sawtooth_pbft.MessageType.{PbftMessageType}
use sawtooth_pbft.Error.{PbftError, Outcome, ok, err, panic, out_of_fuel}
use sawtooth_pbft.ParsedMessage.{ParsedMessage, get_block}
use sawtooth_pbft.State.{PbftState}
use sawtooth_pbft.Log.{PbftLog, get_enough_messages}
use sawtooth_pbft.Log.Enough.{votes_in_view, HasEnough, get_enough_messages_lem}
use sawtooth_pbft.Service.{Env}
use sawtooth_pbft.Node.{PbftNode, M, ◌>>=◌, pure, lift}
use sawtooth_pbft.Node.Seal.{signed_vote, seal_of, build_seal}
use sawtooth_pbft.Outcome.{or_fail}
use sawtooth_pbft.Node.Successes.{>>=-ok, lift-ok, or_fail-ok}
use sawtooth_pbft.Node.Publish.{payload_for}
use sawtooth_pbft.Node.Reads.{Reads, read_rules}

-- The seal of a payload: of the commits of the highest view that has `2f` of them from other nodes.
pub record IsSealed (env : Env) (summary : Bytes) (s : PbftState) (log : PbftLog) (payload : Bytes)
    : Type 0 where
  pub view : ℕ
  pub enough : HasEnough PbftMessageType.commit (sub64 s.seq_num 1) (mul64 2 s.f) log view
  pub seal : PbftSeal
  pub for_summary : seal.summary ≡ summary
  pub votes :
      seal.previous_commit_votes
      ≡ map signed_vote (votes_in_view PbftMessageType.commit (sub64 s.seq_num 1) view log)
  pub written : env.codec.write_seal seal ≡ some payload

-- What a node hands to `finalize_block`: nothing for the first block, else a seal.
abbrev pub IsPayload : Env → Bytes → PbftNode → Bytes → Type 0
IsPayload env summary n payload =
    ((n.state.seq_num ≤ 1) × (payload ≡ []))
    ⊎ ((1 < n.state.seq_num) × IsSealed env summary n.state n.msg_log payload)

module _ (summary : Bytes) where
  -- The seal of messages the first of which has the block `b`.
  abbrev pub seal_for : PbftBlock → List ParsedMessage → PbftSeal
  seal_for b messages = record {
    previous_id = b.block_id;
    summary = summary;
    previous_commit_votes = map signed_vote messages;
  }

  pub seal_of-ok :
      (messages : List ParsedMessage) (seal : PbftSeal)
      → seal_of summary messages ≡ ok seal
      → (b : PbftBlock) × (seal_for b messages ≡ seal)
  unfolding seal_of
  seal_of-ok [] seal h = cc
  seal_of-ok (m ∷ ms) seal h = carried (get_block m) refl
    where
      carried :
          (r : Outcome PbftBlock) → get_block m ≡ r → (b : PbftBlock) × (seal_for b (m ∷ ms) ≡ seal)
      carried (ok b) e = (b, made)
        where
          made : seal_for b (m ∷ ms) ≡ seal
          made = ground (arith, e, h)
      carried (err x) e = ground (arith, e, h)
      carried panic e = ground (arith, e, h)
      carried out_of_fuel e = ground (arith, e, h)

module _ (env : Env) (summary : Bytes) where
  found-IsSealed :
      (s : PbftState) (log : PbftLog) (messages : List ParsedMessage) (seal : PbftSeal)
      (payload : Bytes)
      → get_enough_messages PbftMessageType.commit (sub64 s.seq_num 1) (mul64 2 s.f) log
        ≡ some messages
      → seal_of summary messages ≡ ok seal
      → env.codec.write_seal seal ≡ some payload
      → IsSealed env summary s log payload
  found-IsSealed s log messages seal payload found made written =
      elim (get_enough_messages_lem PbftMessageType.commit (sub64 s.seq_num 1) (mul64 2 s.f) log) [
        | inl (v, e, enough, top) ↦
            let same : votes_in_view PbftMessageType.commit (sub64 s.seq_num 1) v log ≡ messages =
              some_injective (sym e ∙ found) in
            let (b, is_seal) = seal_of-ok summary messages seal made in
            record {
              view = v;
              enough = enough;
              seal = seal;
              for_summary = sym (ap (λ x. x.summary) is_seal);
              votes =
                  sym (ap (λ x. x.previous_commit_votes) is_seal) ∙ ap (map signed_vote) (sym same);
              written = written;
            }
        | inr (e, nothing) ↦ absurd (apart (sym e ∙ found))
      ]
    where
      some_injective : {x y : List ParsedMessage} → some x ≡ some y → x ≡ y
      some_injective d = cc

      apart : none ≡ some messages → ⊥
      apart d = cc

  -- The steps of `build_seal` from its end.
  abbrev write_seal_of : List ParsedMessage → M Bytes
  write_seal_of messages = do
    seal ← lift (seal_of summary messages)
    lift (or_fail PbftError.serialization_error (env.codec.write_seal seal))

  pub build_seal-IsSealed :
      (n k : PbftNode) (payload : Bytes)
      → build_seal env summary n ≡ (ok payload, k)
      → IsSealed env summary n.state n.msg_log payload
  unfolding build_seal
  build_seal-IsSealed n k payload h =
      let found =
        get_enough_messages PbftMessageType.commit (sub64 n.state.seq_num 1) (mul64 2 n.state.f)
          n.msg_log in
      let (messages, j, a, h1) =
        >>=-ok
          (lift (
            or_fail
              (PbftError.internal_error
                "Couldn't find commit messages in the message log for building a seal!")
              found))
          write_seal_of n k payload h in
      let f1 = lift-ok _ n j messages a in
      let (seal, j2, a2, h2) =
        >>=-ok (lift (seal_of summary messages))
          (λ seal. lift (or_fail PbftError.serialization_error (env.codec.write_seal seal))) j k
          payload h1 in
      let f2 = lift-ok (seal_of summary messages) j j2 seal a2 in
      let f3 =
        lift-ok (or_fail PbftError.serialization_error (env.codec.write_seal seal)) j2 k payload
          h2 in
      found-IsSealed n.state n.msg_log messages seal payload (or_fail-ok _ _ _ f1.0) f2.0
        (or_fail-ok _ _ _ f3.0)

module _ (env : Env) where
  pub payload_for-IsPayload :
      (summary : Bytes) (n k : PbftNode) (payload : Bytes)
      → payload_for env summary n ≡ (ok payload, k)
      → IsPayload env summary n payload
  unfolding payload_for
  payload_for-IsPayload summary n k payload h = elim (Bool-cases (leb n.state.seq_num 1)) [
    | inl e ↦ inl (ground arith, first_block_empty e)
    | inr e ↦ inr (ground arith, build_seal-IsSealed env summary n k payload (built e))
  ]
    where
      first_block_empty : leb n.state.seq_num 1 ≡ true → payload ≡ []
      first_block_empty e = ground arith

      built : leb n.state.seq_num 1 ≡ false → build_seal env summary n ≡ (ok payload, k)
      built e = subst (λ b. (if b then pure [] else build_seal env summary) n ≡ (ok payload, k)) e h

  build_seal-Reads : (summary : Bytes) → Reads (build_seal env summary)
  unfolding build_seal
  build_seal-Reads summary = search read_rules depth 12

  pub payload_for-Reads : (summary : Bytes) → Reads (payload_for env summary)
  unfolding payload_for
  payload_for-Reads summary = search (read_rules, build_seal-Reads) depth 12
