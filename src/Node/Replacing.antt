-- ===== src/Node/Replacing.antt =====
-- How a new block of the current number becomes the working block.
use sawtooth_pbft.Common.{
  ltb, if◌then◌else◌, ◌==◌, ==_refl, nat_eq, string_eq, Bytes, bytes_eq, add64, ℕ, String, ◌≡◌,
  refl, sym, ap, ◌∙◌, inl, inr, Bool, true, false, not, ◌&&◌, Option, none, some, List, [], arith,
}
use sawtooth_pbft.Protos.{PbftSeal, Block, block_eq, info_eq, message_eq, seal_eq, view_change_eq}
use sawtooth_pbft.MessageType.{type_eq}
use sawtooth_pbft.Error.{PbftError, Outcome, ok}
use sawtooth_pbft.ParsedMessage.{
  PbftMessageWrapper, ParsedMessage, parsed_eq, info, from_pbft_message,
}
use sawtooth_pbft.State.{PbftPhase, phase_eq, PbftState, is_primary}
use sawtooth_pbft.Log.{entry_eq, add_consensus_seal}
use sawtooth_pbft.Service.{Env}
use sawtooth_pbft.Node.{PbftNode, M, ◌>>=◌, pure, fail, lift, get_state, when}
use sawtooth_pbft.Node.Keeps.{after, >>=-Keeps, with_logged, log_message_cases}
use sawtooth_pbft.Handlers.{make_msg_info, pbft_block_from_block}
use sawtooth_pbft.Node.Seal.{get_settings, peers_at, verify_parsed_seal, verify_consensus_seal}
use sawtooth_pbft.Node.NewBlock.{
  catchup, block_new_message, take_working_block, accept_block, keep_seal, answer_seal,
  verify_and_accept, on_block_new,
}

-- A method that leaves the node's state alone.
record SameState {A : Type 0} (m : M A) : Type 0 where
  at : (n : PbftNode) → (m n).1.state ≡ n.state

module _ {A : Type 0} where
  pure-SameState : (a : A) → SameState (pure a)
  pure-SameState a = record { at = λ n. refl }

  fail-SameState : (e : PbftError) → SameState (fail {A = A} e)
  fail-SameState e = record { at = λ n. refl }

  lift-SameState : (r : Outcome A) → SameState (lift r)
  lift-SameState r = record { at = λ n. refl }

  >>=-SameState :
      {B : Type 0} {m : M A} {f : A → M B}
      → SameState m
      → ((a : A) → SameState (f a))
      → SameState (m >>= f)
  >>=-SameState {m = m} {f = f} h k = record {
    at = λ n.
        >>=-Keeps (λ j. j.state ≡ n.state) m f (λ j e. h.at j ∙ e) (λ a j e. (k a).at j ∙ e) n refl;
  }

  if-SameState : (b : Bool) (m k : M A) → SameState m → SameState k → SameState (if b then m else k)
  if-SameState true m k h g = h
  if-SameState false m k h g = g

get_state-SameState : SameState get_state
get_state-SameState = record { at = λ n. refl }

get_settings-SameState :
    (env : Env) (id : Bytes) (keys : List String) → SameState (get_settings env id keys)
unfolding get_settings
get_settings-SameState env id keys = record { at = λ n. ground arith }

verify_consensus_seal-SameState :
    (env : Env) (block : Block) → SameState (verify_consensus_seal env block)
unfolding verify_consensus_seal verify_parsed_seal peers_at
verify_consensus_seal-SameState env block =
    search
      (
        pure-SameState, fail-SameState, lift-SameState, >>=-SameState, if-SameState,
        get_state-SameState, get_settings-SameState,
      )
      depth 12

add64_apart : (s : ℕ) → (s == add64 s 1) ≡ false
add64_apart s = ground arith

-- The node once the block is its working block.
abbrev pub waiting_for : Block → PbftState → PbftState
waiting_for block s = record s { working_block = some (pbft_block_from_block block) }

-- The message that the node logs for the block.
abbrev announcement : PbftState → Block → Bytes → ParsedMessage
announcement s block bytes = record {
  header_bytes = [];
  header_signature = [];
  message = PbftMessageWrapper.message (block_new_message s block);
  message_bytes = bytes;
  from_self = false;
}

announcement-view :
    (s : PbftState) (block : Block) (bytes : Bytes)
    → (info (announcement s block bytes)).view ≡ s.view
unfolding info block_new_message make_msg_info
announcement-view s block bytes = refl

module _ (env : Env) (send : ParsedMessage → M (Unit {0})) (block : Block) (bytes : Bytes) where
  take_working_block-secondary :
      (k : PbftNode)
      → is_primary k.state ≡ false
      → take_working_block env send block k
        ≡ (ok tt, record k { state = waiting_for block k.state })
  unfolding take_working_block
  take_working_block-secondary k e = rw e refl

  -- What follows the announcement.
  abbrev next_step : PbftState → M (Unit {0})
  next_step s =
      if block.block_num == add64 s.seq_num 1 && not (s.phase == PbftPhase.finished)
      then catchup env block
      else when (block.block_num == s.seq_num) (take_working_block env send block)

  next_step-working :
      (s : PbftState)
      → block.block_num ≡ s.seq_num
      → next_step s ≡ take_working_block env send block
  next_step-working s e = rw (e, add64_apart s.seq_num, ==_refl s.seq_num) refl

  accept_block-replaces :
      (k : PbftNode)
      → block.block_num ≡ k.state.seq_num
      → is_primary k.state ≡ false
      → env.codec.write_message (block_new_message k.state block) ≡ some bytes
      → accept_block env send block k ≡ (
        ok tt,
        record (with_logged (announcement k.state block bytes) k) {
          state = waiting_for block k.state;
        },
      )
  unfolding accept_block from_pbft_message
  accept_block-replaces k at_height secondary writes =
      let msg = announcement k.state block bytes in
      elim (log_message_cases msg k) [
        | inl (v, e) ↦ rw writes (
            ap (after (λ _. next_step k.state)) e
            ∙ ap (λ m. m (with_logged msg k)) (next_step-working k.state at_height)
            ∙ take_working_block-secondary (with_logged msg k) secondary)
        | inr (v, e) ↦ absurd (v (inr (announcement-view k.state block bytes)))
      ]

  -- The node after the seal, if there is one, was kept.
  keep_seal-keeps :
      (seal : Option PbftSeal) (k : PbftNode)
      → (j : PbftNode) × (keep_seal env send block seal k ≡ (ok tt, j)) × (j.state ≡ k.state)
  unfolding keep_seal
  keep_seal-keeps none k = (k, refl, refl)
  keep_seal-keeps (some seal) k = (
    record k { msg_log = add_consensus_seal block.block_id k.state.seq_num seal k.msg_log },
    refl,
    refl,
  )

  pub on_block_new-replaces :
      (n : PbftNode) (seal : Option PbftSeal)
      → block.block_num ≡ n.state.seq_num
      → is_primary n.state ≡ false
      → env.codec.write_message (block_new_message n.state block) ≡ some bytes
      → (verify_consensus_seal env block n).0 ≡ ok seal
      → (on_block_new env send block n).1.state ≡ waiting_for block n.state
  unfolding on_block_new verify_and_accept answer_seal
  on_block_new-replaces n seal at_height secondary writes sealed =
      let k = (verify_consensus_seal env block n).1 in
      let same = (verify_consensus_seal-SameState env block).at n in
      let (j, kept, same') = keep_seal-keeps seal k in
      let state = same' ∙ same in
      let not_old : ltb block.block_num n.state.seq_num ≡ false = ground arith in
      rw not_old (
        ap (λ r. (answer_seal env send block r k).1.state) sealed
        ∙ ap (λ r. (after (λ _. accept_block env send block) r).1.state) kept
        ∙ ap (λ r. r.1.state)
            (accept_block-replaces j (at_height ∙ sym (ap (λ s. s.seq_num) state))
              (ap (λ s. is_primary s) state ∙ secondary)
              (ap (λ s. env.codec.write_message (block_new_message s block)) state ∙ writes))
        ∙ ap (waiting_for block) state)
