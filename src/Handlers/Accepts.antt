-- ===== src/Handlers/Accepts.antt =====
-- The `PrePrepare` handler keeps the agreement of the log, for every message.
use sawtooth_pbft.Common.{
  if◌then◌else◌, Bool-cases, first, filter, In, ◌==◌, nat_eq, string_eq, bytes_eq, ◌≡◌, refl, sym,
  ap, subst, inl, inr, true, false, not, Option, none, some, List, arith,
}
use sawtooth_pbft.Protos.{
  PbftBlock, block_beq_iff, block_eq, info_eq, message_eq, seal_eq, view_change_eq,
}
use sawtooth_pbft.MessageType.{PbftMessageType, type_eq}
use sawtooth_pbft.Error.{PbftError, Outcome, ok, err, panic, out_of_fuel}
use sawtooth_pbft.ParsedMessage.{ParsedMessage, parsed_eq, info, get_block}
use sawtooth_pbft.State.{phase_eq}
use sawtooth_pbft.Log.{entry_eq, insert, get_one_msg}
use sawtooth_pbft.Log.Sets.{insert-IsDistinct, with_message}
use sawtooth_pbft.Log.Queries.{first-filter}
use sawtooth_pbft.Log.Order.{is_pre_prepare_at}
use sawtooth_pbft.Service.{Env}
use sawtooth_pbft.Node.{PbftNode, M, ◌>>=◌, ◌>>◌, fail, lift, done, log_message}
use sawtooth_pbft.Node.Keeps.{after, after-Keeps, next-Keeps, stop-Keeps, log_message_cases}
use sawtooth_pbft.Handlers.{check_existing, enter_preparing, accept_pre_prepare, handle_pre_prepare}
use sawtooth_pbft.Handlers.Agreement.{insert_same-Agrees}
use sawtooth_pbft.Node.Preserves.{LogKeeps, log_rules}
use sawtooth_pbft.Handlers.Agreed.{LogAgrees, insert_blockless-LogAgrees, first-none, block_cases}

module _ (env : Env) (msg : ParsedMessage) where
  abbrev NodeAgrees : PbftNode → Type 0
  NodeAgrees n = LogAgrees n.msg_log.messages

  pub enter_preparing-LogKeeps :
      {Q : List ParsedMessage → Type 0} → LogKeeps Q (enter_preparing env msg)
  unfolding enter_preparing
  enter_preparing-LogKeeps = search log_rules depth 12

  -- The message is logged where the insertion keeps the agreement.
  log_and_enter :
      (n : PbftNode)
      → NodeAgrees n
      → LogAgrees (insert msg n.msg_log.messages)
      → NodeAgrees ((log_message msg >> enter_preparing env msg) n).1
  log_and_enter n v u = elim (log_message_cases msg n) [
    | inl (for_view, e) ↦
        next-Keeps NodeAgrees (log_message msg) (λ _. enter_preparing env msg) n e
          ((enter_preparing-LogKeeps {Q = LogAgrees}).at
            (record n { msg_log = with_message msg n.msg_log }) u)
    | inr (other, e) ↦ stop-Keeps NodeAgrees (log_message msg) (λ _. enter_preparing env msg) n e v
  ]

  -- `check_existing` changes nothing.
  check_existing_same :
      (p : Option ParsedMessage) (n : PbftNode)
      → check_existing msg p n ≡ ((check_existing msg p n).0, n)
  unfolding check_existing
  check_existing_same none n = refl
  check_existing_same (some p) n = ground arith

  -- If it passes an existing message, that message has the same block.
  check_existing-ok :
      (p : ParsedMessage) (b : PbftBlock) (n : PbftNode)
      → get_block msg ≡ ok b
      → (check_existing msg (some p) n).0 ≡ ok tt
      → get_block p ≡ ok b
  unfolding check_existing
  check_existing-ok p b n carries passed =
      agreed (get_block p)
        (subst (λ r. (after (compare r) (get_block p, n)).0 ≡ ok tt) carries passed)
    where
      compare : Outcome PbftBlock → PbftBlock → M (Unit {0})
      compare r old = do
        block ← lift r
        if not (old == block) then fail (PbftError.block_mismatch old block) else done

      agreed : (r : Outcome PbftBlock) → (after (compare (ok b)) (r, n)).0 ≡ ok tt → r ≡ ok b
      agreed (ok c) h = elim (Bool-cases (c == b)) [
        | inl same ↦ ap ok ((block_beq_iff c b).0 same)
        | inr differ ↦ absurd (differs c h differ)
      ]
        where
          differs :
              (c : PbftBlock) → (after (compare (ok b)) (ok c, n)).0 ≡ ok tt → (c == b) ≡ false → ⊥
          differs c h differ = ground arith
      agreed (err x) h = cc
      agreed panic h = cc
      agreed out_of_fuel h = cc

  log_if_passed :
      (n : PbftNode) (p : Option ParsedMessage)
      → NodeAgrees n
      → ((check_existing msg p n).0 ≡ ok tt → LogAgrees (insert msg n.msg_log.messages))
      → NodeAgrees ((check_existing msg p >> (log_message msg >> enter_preparing env msg)) n).1
  log_if_passed n p v a =
      subst (λ r. NodeAgrees (after (λ _. log_message msg >> enter_preparing env msg) r).1)
        (sym (check_existing_same p n))
        (after-Keeps NodeAgrees (λ _. log_message msg >> enter_preparing env msg)
          (check_existing msg p n).0 n (λ _ e. log_and_enter n v (a e)) v)

  -- Every logged `PrePrepare` of the message's view and sequence number has the block `b`.
  accept-LogAgrees :
      (b : PbftBlock) → get_block msg ≡ ok b → LogKeeps LogAgrees (accept_pre_prepare env msg)
  unfolding accept_pre_prepare get_one_msg
  accept-LogAgrees b carries = record {
    at = λ n v.
        log_if_passed n (get_one_msg (info msg) PbftMessageType.pre_prepare n.msg_log) v (λ passed.
          record {
            distinct = insert-IsDistinct msg n.msg_log.messages v.distinct;
            agreed =
                insert_same-Agrees msg n.msg_log.messages b carries
                  (unopposed n v (get_one_msg (info msg) PbftMessageType.pre_prepare n.msg_log) refl
                    passed)
                  v.agreed;
          });
  }
    where
      unopposed :
          (n : PbftNode)
          → NodeAgrees n
          → (found : Option ParsedMessage)
          → first (filter (is_pre_prepare_at (info msg).seq_num (info msg).view) n.msg_log.messages)
            ≡ found
          → (check_existing msg found n).0 ≡ ok tt
          → (k : ParsedMessage) (c : PbftBlock) → In k n.msg_log.messages
          → is_pre_prepare_at (info msg).seq_num (info msg).view k ≡ true
          → get_block k ≡ ok c
          → c ≡ b
      unopposed n v none e passed k c i at has = absurd (
          first-none (is_pre_prepare_at (info msg).seq_num (info msg).view) k n.msg_log.messages e i
            at)
      unopposed n v (some p) e passed k c i at has =
          let is_at = is_pre_prepare_at (info msg).seq_num (info msg).view in
          let found = first-filter is_at p n.msg_log.messages e in
          v.agreed k p (info msg).seq_num (info msg).view c b i found.0 at found.1 has
            (check_existing-ok p b n carries passed)

  -- Whether the message has a block or not.
  accept_pre_prepare-LogAgrees : LogKeeps LogAgrees (accept_pre_prepare env msg)
  unfolding accept_pre_prepare
  accept_pre_prepare-LogAgrees = elim (block_cases msg) [
    | inl (b, carries) ↦ accept-LogAgrees b carries
    | inr blockless ↦ record {
      at = λ n v.
          log_if_passed n (get_one_msg (info msg) PbftMessageType.pre_prepare n.msg_log) v
            (λ passed. insert_blockless-LogAgrees msg n.msg_log.messages blockless v);
    }
  ]

  -- So with the two checks that come first.
  pub handle_pre_prepare-LogAgrees : LogKeeps LogAgrees (handle_pre_prepare env msg)
  unfolding handle_pre_prepare
  handle_pre_prepare-LogAgrees = search (log_rules, accept_pre_prepare-LogAgrees) depth 12
