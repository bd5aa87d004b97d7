-- ===== src/Node/Sealed.antt =====
-- `verify_consensus_seal` as a whole.
use sawtooth_pbft.Common.{
  ltb, if◌then◌else◌, In, ◌==◌, nat_eq, string_eq, Bytes, bytes_eq, ◌≡◌, sym, ap, ◌∙◌, subst, ◌≢◌,
  ◌⊎◌, inl, inr, Bool, true, false, Option, none, some, List, [],
}
use sawtooth_pbft.Protos.{PbftSeal, Block, block_eq, info_eq, message_eq, seal_eq, view_change_eq}
use sawtooth_pbft.Error.{PbftError, ok, err}
use sawtooth_pbft.Service.{Env}
use sawtooth_pbft.Node.{PbftNode, M, ◌>>=◌, pure, fail, lift, get_state}
use sawtooth_pbft.Node.Votes.{verify_votes, check_seal_fields}
use sawtooth_pbft.Node.Seal.{peers_at, check_voters, verify_parsed_seal, verify_consensus_seal}
use sawtooth_pbft.Node.Successes.{>>=-ok, lift-ok, or_fail-ok}
use sawtooth_pbft.Node.Sealing.{
  HasVote, verify_votes-HasVote, verify_votes-IsDistinct, check_voters-ok, check_seal_fields-ok,
  IsBacked, peers_at-state,
}
use sawtooth_pbft.MessageType.{type_eq}
use sawtooth_pbft.Outcome.{or_fail}
use sawtooth_pbft.ParsedMessage.{parsed_eq}
use sawtooth_pbft.State.{phase_eq}
use sawtooth_pbft.Log.{entry_eq}

some_injective : {x y : PbftSeal} → ok (some x) ≡ ok (some y) → x ≡ y
some_injective e = cc

-- The seal, the block and the voters agree, with the peers of the previous block.
abbrev pub IsVerified : Env → Block → PbftSeal → PbftNode → Type 0
IsVerified env block seal n =
    (peers : List Bytes) × ((peers_at env block.previous_id n).0 ≡ ok peers)
    × IsBacked env.codec block seal peers n.state.f

module _ (env : Env) (block : Block) where
  -- The steps of `verify_parsed_seal` from its end.
  abbrev count_votes : PbftSeal → List Bytes → List Bytes → M (Option PbftSeal)
  count_votes seal ids peers = do
    s ← get_state
    counted ← lift (check_voters block.signer_id peers ids s.f)
    pure (some seal)

  abbrev find_peers : PbftSeal → List Bytes → M (Option PbftSeal)
  find_peers seal ids = do peers ← peers_at env block.previous_id; count_votes seal ids peers

  abbrev find_voters : PbftSeal → M (Option PbftSeal)
  find_voters seal = do
    ids ← lift (verify_votes env.codec seal seal.previous_commit_votes [])
    find_peers seal ids

  count_votes-ok :
      (seal out : PbftSeal) (ids peers : List Bytes) (n k : PbftNode)
      → count_votes seal ids peers n ≡ (ok (some out), k)
      → (seal ≡ out) × (check_voters block.signer_id peers ids n.state.f ≡ ok tt)
  count_votes-ok seal out ids peers n k h =
      let (_, j, a, h') =
        >>=-ok (lift (check_voters block.signer_id peers ids n.state.f)) (λ _. pure (some seal)) n k
          (some out) h in
      (some_injective (ap (λ p. p.0) h'), (lift-ok _ n j tt a).0)

  verify_parsed_seal-IsVerified :
      (seal out : PbftSeal) (n k : PbftNode)
      → verify_parsed_seal env block seal n ≡ (ok (some out), k)
      → (seal ≡ out) × IsVerified env block seal n
  unfolding verify_parsed_seal
  verify_parsed_seal-IsVerified seal out n k h =
      let (_, j1, a1, h1) =
        >>=-ok (lift (check_seal_fields block seal)) (λ _. find_voters seal) n k (some out) h in
      let f1 = lift-ok (check_seal_fields block seal) n j1 tt a1 in
      let (ids, j2, a2, h2) =
        >>=-ok (lift (verify_votes env.codec seal seal.previous_commit_votes [])) (find_peers seal)
          j1 k (some out) h1 in
      let f2 = lift-ok (verify_votes env.codec seal seal.previous_commit_votes []) j1 j2 ids a2 in
      let (peers, j3, a3, h3) =
        >>=-ok (peers_at env block.previous_id) (count_votes seal ids) j2 k (some out) h2 in
      let last = count_votes-ok seal out ids peers j3 k h3 in
      let same = f1.1 ∙ f2.1 in
      let same_state =
        sym (ap (λ p. p.1.state) a3)
        ∙ peers_at-state env block.previous_id j2
        ∙ sym (ap (λ j. j.state) same) in
      let fields = check_seal_fields-ok block seal f1.0 in
      let counted =
        check_voters-ok block.signer_id peers ids n.state.f
          (subst (λ s. check_voters block.signer_id peers ids s.f ≡ ok tt) same_state last.1) in
      (
        last.0,
        (
          peers,
          ap (λ j. (peers_at env block.previous_id j).0) same ∙ ap (λ p. p.0) a3,
          record {
            for_previous = fields.0;
            for_summary = fields.1;
            voters = ids;
            distinct =
                verify_votes-IsDistinct env.codec seal seal.previous_commit_votes [] ids f2.0 tt;
            enough = counted.1;
            are_peers = λ v i. peer peers seal ids v f2.0 (counted.0 v i) i;
          },
        ),
      )
    where
      peer :
          (peers : List Bytes) (seal : PbftSeal) (ids : List Bytes) (v : Bytes)
          → verify_votes env.codec seal seal.previous_commit_votes [] ≡ ok ids
          → In v peers × (v ≢ block.signer_id)
          → In v ids
          → In v peers × (v ≢ block.signer_id) × HasVote env.codec seal seal.previous_commit_votes v
      peer peers seal ids v h p i =
          let found = verify_votes-HasVote env.codec seal seal.previous_commit_votes [] ids v h i in
          (p.0, p.1, voted found)
        where
          voted :
              (In v [] ⊎ HasVote env.codec seal seal.previous_commit_votes v)
              → HasVote env.codec seal seal.previous_commit_votes v
          voted (inl e) = absurd e
          voted (inr x) = x

  -- A seal that `verify_consensus_seal` returns was read from the block's payload and is for the
  -- block's previous ID and summary. At least `2f` distinct signers are named by the messages of its
  -- votes, all of them peers that the settings at the previous block name, none of them the block's
  -- signer; each of these votes is for the previous block, and its hash and signature were checked.
  pub verify_consensus_seal-IsVerified :
      (seal : PbftSeal) (n k : PbftNode)
      → verify_consensus_seal env block n ≡ (ok (some seal), k)
      → (env.codec.parse_seal block.payload ≡ some seal) × IsVerified env block seal n
  unfolding verify_consensus_seal
  verify_consensus_seal-IsVerified seal n k h =
      let (read, j, a, h') =
        >>=-ok (lift (or_fail PbftError.serialization_error (env.codec.parse_seal block.payload)))
          (verify_parsed_seal env block) n k (some seal)
          (both_passed (ltb block.block_num 2) (block.payload == []) _ _ n h) in
      let f =
        lift-ok (or_fail PbftError.serialization_error (env.codec.parse_seal block.payload)) n j
          read a in
      let verified = verify_parsed_seal-IsVerified read seal j k h' in
      (
        or_fail-ok _ _ _ f.0 ∙ ap some verified.0,
        subst (IsVerified env block seal) (sym f.1)
            (subst (λ s. IsVerified env block s j) verified.0 verified.1),
      )
    where
      both_passed :
          (b c : Bool) (x : PbftError) (m : M (Option PbftSeal)) (n : PbftNode)
          → (if b then pure none else if c then fail x else m) n ≡ (ok (some seal), k)
          → m n ≡ (ok (some seal), k)
      both_passed true c x m n h = absurd (not_none (ap (λ p. p.0) h))
        where
          not_none : ok none ≡ ok (some seal) → ⊥
          not_none e = cc
      both_passed false true x m n h = absurd (not_err (ap (λ p. p.0) h))
        where
          not_err : err x ≡ ok (some seal) → ⊥
          not_err e = cc
      both_passed false false x m n h = h
