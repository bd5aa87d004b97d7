-- ===== src/Node/CaughtUp.antt =====
-- `catchup` whole: when it takes a node to the next block, and when it cannot.
use sawtooth_pbft.Common.{
  All, ==_refl, nat_eq, string_eq, bytes_eq, add64, ℕ, ◌≤◌, ◌<◌, ◌≡◌, refl, sym, ap, ◌∙◌, subst,
  ◌≢◌, ◌⊎◌, inl, inr, true, false, some, List, [], ◌∷◌, arith,
}
use sawtooth_pbft.Protos.{
  PbftBlock, PbftMessage, PbftSeal, Block, block_eq, info_eq, message_eq, seal_eq, view_change_eq,
}
use sawtooth_pbft.MessageType.{PbftMessageType, type_eq, from_str}
use sawtooth_pbft.Error.{PbftError, ok, err}
use sawtooth_pbft.ParsedMessage.{PbftMessageWrapper, ParsedMessage, parsed_eq, info, get_block}
use sawtooth_pbft.State.{PbftPhase, phase_eq, PbftState}
use sawtooth_pbft.Log.{entry_eq}
use sawtooth_pbft.Log.Sets.{IsForView}
use sawtooth_pbft.Service.{Call, Env}
use sawtooth_pbft.Node.{PbftNode, M, ◌>>=◌, lift}
use sawtooth_pbft.Node.Votes.{seal_messages}
use sawtooth_pbft.Node.NewBlock.{check_next, raise_view, catchup_with, catchup}
use sawtooth_pbft.Outcome.{or_fail}
use sawtooth_pbft.Node.Keeps.{after}
use sawtooth_pbft.Node.Blocks.{is_working_block, on_block_commit}
use sawtooth_pbft.Node.Progress.{StartsAt, on_block_commit_lem}
use sawtooth_pbft.Node.CatchUp.{
  handed_over, get_block-first, catchup_with-hands_over, catchup_with-refused,
}
use sawtooth_pbft.Node.SealMessages.{first_message}

raise_view-same : (view : ℕ) (s : PbftState) → view ≤ s.view → raise_view view s ≡ s
unfolding raise_view
raise_view-same view s h = ground arith

raise_view-view : (view : ℕ) (s : PbftState) → s.view ≤ view → (raise_view view s).view ≡ view
unfolding raise_view
raise_view-view view s h = ground arith

raise_view-working :
    (view : ℕ) (s : PbftState)
    → ((raise_view view s).working_block ≡ s.working_block)
      × ((raise_view view s).seq_num ≡ s.seq_num)
unfolding raise_view
raise_view-working view s = ground arith

All-IsForView :
    (view view' : ℕ) (ms : List ParsedMessage)
    → view' ≡ view
    → All (λ k. (info k).view ≡ view) ms
    → All (IsForView view') ms
All-IsForView view view' [] e h = tt
All-IsForView view view' (k ∷ ms) e h = (inr (h.0 ∙ sym e), All-IsForView view view' ms e h.1)

module _ (env : Env) (block : Block) (n : PbftNode) (w : PbftBlock) (seal : PbftSeal)
    (m : ParsedMessage) (ms : List ParsedMessage) (working : n.state.working_block ≡ some w)
    (next : block.block_num ≡ add64 w.block_num 1) (follows : block.previous_id ≡ w.block_id)
    (parsed : env.codec.parse_seal block.payload ≡ some seal)
    (read : seal_messages env.codec seal.previous_commit_votes ≡ ok (m ∷ ms)) where
  check_next-ok : check_next block n.state ≡ ok tt
  unfolding check_next
  check_next-ok =
      rw (working, next, follows, ==_refl (add64 w.block_num 1), ==_refl w.block_id) refl

  abbrev read_messages : PbftSeal → M (Unit {0})
  read_messages s = lift (seal_messages env.codec s.previous_commit_votes) >>= catchup_with env

  abbrev read_seal : M (Unit {0})
  read_seal =
      lift (or_fail PbftError.serialization_error (env.codec.parse_seal block.payload))
      >>= read_messages

  catchup-with : catchup env block n ≡ catchup_with env (m ∷ ms) n
  unfolding catchup
  catchup-with =
      ap (λ r. after (λ _. read_seal) (r, n)) check_next-ok
      ∙ ap (λ o. after read_messages (or_fail PbftError.serialization_error o, n)) parsed
      ∙ ap (λ r. after (catchup_with env) (r, n)) read

  handed_over-StartsAt :
      (b : PbftBlock)
      → b.block_id ≡ w.block_id
      → StartsAt (add64 n.state.seq_num 1) (on_block_commit env b.block_id (handed_over m ms b n)).1
  unfolding is_working_block
  handed_over-StartsAt b about =
      let same = raise_view-working (info m).view n.state in
      elim (on_block_commit_lem env b.block_id (handed_over m ms b n))
        as (λ _.
          StartsAt (add64 n.state.seq_num 1)
            (on_block_commit env b.block_id (handed_over m ms b n)).1) [
              | inl (inl unfinished, _) ↦ absurd (unfinished refl)
              | inl (inr other, _) ↦
                  absurd
                    (apart (sym (is_working (raise_view (info m).view n.state) same.0) ∙ other))
              | inr (_, _, starts) ↦ (starts.0 ∙ ap (λ q. add64 q 1) same.1, starts.1)
            ]
    where
      apart : true ≡ false → ⊥
      apart e = cc

      is_working :
          (s : PbftState)
          → s.working_block ≡ n.state.working_block
          → is_working_block b.block_id (record s { phase = PbftPhase.finished }) ≡ true
      is_working s e = rw (e, working, about) (==_refl w.block_id)

  -- A node that gets the block after its working block catches up: if the votes in the seal of that
  -- block are messages of one view that is not below the node's, the first of them is about the working
  -- block, and the validator takes this block, then the votes are logged, the working block is handed
  -- over, and the node is at the next sequence number in the phase PrePreparing.
  pub catchup-next_block :
      (b : PbftBlock)
      → get_block m ≡ ok b
      → b.block_id ≡ w.block_id
      → n.state.view ≤ (info m).view
      → All (λ k. (info k).view ≡ (info m).view) ms
      → env.service.succeeds n.calls (Call.commit_block b.block_id) ≡ true
      → (catchup env block n ≡ on_block_commit env b.block_id (handed_over m ms b n))
        × StartsAt (add64 n.state.seq_num 1) (catchup env block n).1
  catchup-next_block b carries about not_behind one_view taken =
      let (p, wraps) = first_message env.codec seal.previous_commit_votes m ms read in
      let same : p.block ≡ b = own_block p wraps in
      let views =
        All-IsForView (info m).view (raise_view (info m).view n.state).view (m ∷ ms)
          (raise_view-view (info m).view n.state not_behind) (refl, one_view) in
      let handed =
        catchup-with
        ∙ catchup_with-hands_over env m ms p wraps n views
            (ap (λ c. env.service.succeeds n.calls (Call.commit_block c.block_id)) same ∙ taken)
        ∙ ap (λ c. on_block_commit env c.block_id (handed_over m ms c n)) same in
      (
        handed,
        subst (λ r. StartsAt (add64 n.state.seq_num 1) r.1) (sym handed)
            (handed_over-StartsAt b about),
      )
    where
      injective : {x y : PbftBlock} → ok x ≡ ok y → x ≡ y
      injective e = cc

      own_block : (p : PbftMessage) → m.message ≡ PbftMessageWrapper.message p → p.block ≡ b
      own_block p wraps = injective (sym (get_block-first env m ms p wraps) ∙ carries)

  -- A node that gets the block after its working block, with a seal of at least one vote all of which
  -- can be read, does not catch up if the first vote is of a view below the node's and not of the type
  -- ViewChange: the node answers with an error, and everything stays as it was.
  pub catchup-older_view :
      (info m).view < n.state.view
      → from_str (info m).msg_type ≢ PbftMessageType.view_change
      → catchup env block n ≡ (err (PbftError.view_mismatch (info m).view n.state.view), n)
  catchup-older_view older ne =
      let (p, wraps) = first_message env.codec seal.previous_commit_votes m ms read in
      catchup-with
      ∙ catchup_with-refused env m ms p wraps n
          (raise_view-same (info m).view n.state (omega (arith, older))) refused
    where
      refused :
          (from_str (info m).msg_type ≡ PbftMessageType.view_change)
            ⊎ ((info m).view ≡ n.state.view)
          → ⊥
      refused (inl e) = ne e
      refused (inr e) = absurd (omega (arith, e, older))
