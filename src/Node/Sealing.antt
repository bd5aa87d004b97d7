-- ===== src/Node/Sealing.antt =====
-- What a block's seal proves once `verify_consensus_seal` has accepted it.
use sawtooth_pbft.Common.{
  ltb, if◌then◌else◌, Option-cases, &&_iff, length, filter, all, In, ◌==◌, ==_iff, ==_refl, nat_eq,
  string_eq, Bytes, bytes_eq, mul64, ℕ, ◌≤◌, String, ◌≡◌, refl, sym, ◌∙◌, subst, ◌≢◌, ◌↔◌, ◌⊎◌, inl,
  inr, Bool, true, false, not, Option, none, some, List, [], ◌∷◌, arith,
}
use sawtooth_pbft.Protos.{
  PbftMessage, PbftSignedCommitVote, PbftSeal, ConsensusPeerMessageHeader, Block, block_eq, info_eq,
  message_eq, seal_eq, view_change_eq,
}
use sawtooth_pbft.Error.{PbftError, Outcome, ok, err}
use sawtooth_pbft.Codec.{Codec}
use sawtooth_pbft.ParsedMessage.{parsed_eq, verify_sha512}
use sawtooth_pbft.Node.Votes.{
  check_verified, verify_consensus_vote, verify_votes, check_seal_fields,
}
use sawtooth_pbft.MessageType.{type_eq}
use sawtooth_pbft.Outcome.{first_step}
use sawtooth_pbft.State.{phase_eq}
use sawtooth_pbft.Log.{entry_eq, contains, insert}
use sawtooth_pbft.Node.Successes.{or_fail-ok, or_panic-ok}
use sawtooth_pbft.Log.Sets.{contains_iff, In-insert, IsDistinct, insert-IsDistinct}
use sawtooth_pbft.Node.Seal.{get_settings, peers_at, check_voters}
use sawtooth_pbft.Config.{get_peers_from_settings}
use sawtooth_pbft.Log.Queries.{In-filter}
use sawtooth_pbft.Service.{Env}
use sawtooth_pbft.Node.{PbftNode, lift}
use sawtooth_pbft.Node.Keeps.{>>=-Keeps}

-- What `verify_consensus_vote` has checked of a vote that it accepts for a signer.
pub record IsChecked (c : Codec) (vote : PbftSignedCommitVote) (seal : PbftSeal) (id : Bytes)
    : Type 0 where
  pub msg : PbftMessage
  pub header : ConsensusPeerMessageHeader
  pub key : Bytes
  pub is_message : c.parse_message vote.message_bytes ≡ some msg
  pub is_header : c.parse_header vote.header_bytes ≡ some header
  pub is_key : c.public_key header.signer_id ≡ some key
  pub has_context : c.create_context ≡ true
  pub for_block : msg.block.block_id ≡ seal.previous_id
  pub is_signed : c.verify vote.header_signature vote.header_bytes key ≡ some true
  pub is_hashed : c.sha512 vote.message_bytes ≡ header.content_sha512
  pub signer : msg.info.signer_id ≡ id

pub ok_injective : {A : Type 0} {x y : A} → ok x ≡ ok y → x ≡ y
ok_injective e = cc

-- A test that stops a call unless it holds.
passed : (b : Bool) (x : PbftError) → (if b then ok tt else err x) ≡ ok tt → b ≡ true
passed true x h = refl
passed false x h = cc

check_verified-ok : (o : Option Bool) → check_verified o ≡ ok tt → o ≡ some true
unfolding check_verified
check_verified-ok none h = cc
check_verified-ok (some true) h = refl
check_verified-ok (some false) h = cc

module _ (c : Codec) (vote : PbftSignedCommitVote) (seal : PbftSeal) where
  verify_consensus_vote-IsChecked :
      (id : Bytes) → verify_consensus_vote c vote seal ≡ ok id → IsChecked c vote seal id
  unfolding verify_consensus_vote verify_sha512
  verify_consensus_vote-IsChecked id h =
      let (msg, (m, h1)) = first_step _ _ h in
      let (_, (b, h2)) = first_step _ _ h1 in
      let (header, (p, h3)) = first_step _ _ h2 in
      let (key, (k, h4)) = first_step _ _ h3 in
      let (_, (x, h5)) = first_step context _ h4 in
      let (_, (v, h6)) = first_step _ _ h5 in
      let (_, (d, h7)) = first_step _ _ h6 in
      record {
        msg = msg;
        header = header;
        key = key;
        is_message = or_fail-ok _ _ _ m;
        is_header = or_fail-ok _ _ _ p;
        is_key = or_panic-ok _ _ k;
        has_context = passed _ (PbftError.internal_error "Couldn't create context") x;
        for_block = (==_iff msg.block.block_id seal.previous_id).0 (passed _ _ b);
        is_signed = check_verified-ok _ v;
        is_hashed =
            (==_iff (c.sha512 vote.message_bytes) header.content_sha512).0
              (passed _ (PbftError.internal_error "Hash verification failed!") d);
        signer = ok_injective h7;
      }
    where
      context : Outcome (Unit {0})
      context =
          if c.create_context
          then ok tt
          else err (PbftError.internal_error "Couldn't create context")

  checked_vote : (id : Bytes) → IsChecked c vote seal id → verify_consensus_vote c vote seal ≡ ok id
  unfolding verify_consensus_vote verify_sha512 check_verified
  checked_vote id x = rw (
    x.is_message,
    x.for_block,
    ==_refl seal.previous_id,
    x.is_header,
    x.is_key,
    x.has_context,
    x.is_signed,
    x.is_hashed,
    ==_refl x.header.content_sha512,
    x.signer,
  )

  -- `verify_consensus_vote` accepts a vote for a signer exactly if the vote's message is for the seal's
  -- block and names that signer, and the header is signed with the key that the header names and has
  -- the hash of the message. That the header and the message name the same signer is not asked.
  pub verify_consensus_vote_iff :
      (id : Bytes) → (verify_consensus_vote c vote seal ≡ ok id) ↔ IsChecked c vote seal id
  verify_consensus_vote_iff id = (λ h. verify_consensus_vote-IsChecked id h, λ x. checked_vote id x)

-- A vote of the list that was checked for the signer.
abbrev pub HasVote : Codec → PbftSeal → List PbftSignedCommitVote → Bytes → Type 0
HasVote c seal vs id = (vote : PbftSignedCommitVote) × In vote vs × IsChecked c vote seal id

module _ (c : Codec) (seal : PbftSeal) where
  pub verify_votes-HasVote :
      (vs : List PbftSignedCommitVote) (ids out : List Bytes) (id : Bytes)
      → verify_votes c seal vs ids ≡ ok out
      → In id out
      → In id ids ⊎ HasVote c seal vs id
  unfolding verify_votes
  verify_votes-HasVote [] ids out id h i = inl (subst (In id) (sym (ok_injective h)) i)
  verify_votes-HasVote (v ∷ vs) ids out id h i =
      let (w, (e, h')) = first_step _ _ h in
      later w e (verify_votes-HasVote vs (insert w ids) out id h' i)
    where
      new :
          (w : Bytes)
          → verify_consensus_vote c v seal ≡ ok w
          → (id ≡ w) ⊎ In id ids
          → In id ids ⊎ HasVote c seal (v ∷ vs) id
      new w e (inl same) =
          inr (v, inl refl, verify_consensus_vote-IsChecked c v seal id (rw same e))
      new w e (inr old) = inl old

      later :
          (w : Bytes)
          → verify_consensus_vote c v seal ≡ ok w
          → In id (insert w ids) ⊎ HasVote c seal vs id
          → In id ids ⊎ HasVote c seal (v ∷ vs) id
      later w e (inl k) = new w e ((In-insert w id ids).0 k)
      later w e (inr (vote, k, checked)) = inr (vote, inr k, checked)

  pub verify_votes-IsDistinct :
      (vs : List PbftSignedCommitVote) (ids out : List Bytes)
      → verify_votes c seal vs ids ≡ ok out
      → IsDistinct ids
      → IsDistinct out
  unfolding verify_votes
  verify_votes-IsDistinct [] ids out h d = subst IsDistinct (ok_injective h) d
  verify_votes-IsDistinct (v ∷ vs) ids out h d =
      let (w, (e, h')) =
        first_step (verify_consensus_vote c v seal) (λ w. verify_votes c seal vs (insert w ids))
          h in
      verify_votes-IsDistinct vs (insert w ids) out h' (insert-IsDistinct w ids d)

-- `all` tests every entry.
all-In : {A : Type 0} (p : A → Bool) (xs : List A) (x : A) → all p xs ≡ true → In x xs → p x ≡ true
all-In p [] x h i = absurd i
all-In p (y ∷ ys) x h (inl e) = rw e (((&&_iff (p y) (all p ys)).0 h).0)
all-In p (y ∷ ys) x h (inr i) = all-In p ys x ((&&_iff (p y) (all p ys)).0 h).1 i

-- The voters are peers other than the signer, and there are enough of them.
pub check_voters-ok :
    (signer : Bytes) (peers voters : List Bytes) (f : ℕ)
    → check_voters signer peers voters f ≡ ok tt
    → ((v : Bytes) → In v voters → In v peers × (v ≢ signer)) × (mul64 2 f ≤ length voters)
unfolding check_voters
check_voters-ok signer peers voters f h =
    (λ v i. known v (all-In _ voters v tests.0 i), ground (arith, tests))
  where
    tests :
        (all (λ v. contains v (filter (λ p. not (p == signer)) peers)) voters ≡ true)
        × (ltb (length voters) (mul64 2 f) ≡ false)
    tests = ground (arith, h)

    known :
        (v : Bytes)
        → contains v (filter (λ p. not (p == signer)) peers) ≡ true
        → In v peers × (v ≢ signer)
    known v e =
        let hit =
          (In-filter (λ p. not (p == signer)) v peers).0
            ((contains_iff v (filter (λ p. not (p == signer)) peers)).0 e) in
        (hit.0, λ same. ground (arith, hit.1, ==_iff v signer, same))

pub check_seal_fields-ok :
    (block : Block) (seal : PbftSeal)
    → check_seal_fields block seal ≡ ok tt
    → (seal.previous_id ≡ block.previous_id) × (seal.summary ≡ block.summary)
unfolding check_seal_fields
check_seal_fields-ok block seal h =
    ground (arith, ==_iff seal.previous_id block.previous_id, ==_iff seal.summary block.summary)

-- Distinct peers, without the block's signer, have voted for the previous block, and there are enough
-- of them.
pub record IsBacked (c : Codec) (block : Block) (seal : PbftSeal) (peers : List Bytes) (f : ℕ)
    : Type 0 where
  pub for_previous : seal.previous_id ≡ block.previous_id
  pub for_summary : seal.summary ≡ block.summary
  pub voters : List Bytes
  pub distinct : IsDistinct voters
  pub enough : mul64 2 f ≤ length voters
  pub are_peers :
      (v : Bytes)
      → In v voters
      → In v peers × (v ≢ block.signer_id) × HasVote c seal seal.previous_commit_votes v

module _ (env : Env) where
  pub get_settings-state :
      (id : Bytes) (keys : List String) (n : PbftNode)
      → (get_settings env id keys n).1.state ≡ n.state
  unfolding get_settings
  get_settings-state id keys n = elim (Option-cases (env.service.settings n.calls id keys)) [
    | inl e ↦ rw (e, get_settings) refl
    | inr (a, e) ↦ rw (e, get_settings) refl
  ]

  pub peers_at-state : (id : Bytes) (n : PbftNode) → (peers_at env id n).1.state ≡ n.state
  unfolding peers_at
  peers_at-state id n =
      >>=-Keeps (λ k. k.state ≡ n.state)
        (get_settings env id ("sawtooth.consensus.pbft.peers" ∷ []))
        (λ settings. lift (get_peers_from_settings env.json_strings env.hex_decode settings))
        (λ k e. get_settings-state id ("sawtooth.consensus.pbft.peers" ∷ []) k ∙ e) (λ a k e. e) n
        refl
