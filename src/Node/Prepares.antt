-- ===== src/Node/Prepares.antt =====
-- When a `Prepare` message has a block checked.
use sawtooth_pbft.Common.{
  if◌then◌else◌, Bool-cases, ◌==◌, ==_iff, nat_eq, string_eq, bytes_eq, ◌≡◌, refl, sym, ap, subst,
  ◌≢◌, ◌⊎◌, inl, inr, Bool, true, false, [], ◌∷◌, arith,
}
use sawtooth_pbft.Protos.{PbftBlock, block_eq, info_eq, message_eq, seal_eq, view_change_eq}
use sawtooth_pbft.MessageType.{type_eq}
use sawtooth_pbft.Error.{PbftError, Outcome, ok, err, panic, out_of_fuel}
use sawtooth_pbft.ParsedMessage.{ParsedMessage, parsed_eq, info, get_block}
use sawtooth_pbft.State.{PbftPhase, phase_eq}
use sawtooth_pbft.Log.{entry_eq, check_prepared}
use sawtooth_pbft.Service.{Call, Env}
use sawtooth_pbft.Node.{PbftNode, M, ◌>>=◌, fail, done, when, request, switch_to}
use sawtooth_pbft.Node.Keeps.{after, if-Keeps, with_logged, log_message_cases}
use sawtooth_pbft.Node.Peer.{check_blocks_if_not_checking, check_if_prepared, on_prepare}

-- The only call that a `Prepare` message can make: the validator is to check its own block, in a phase
-- other than Checking, at the current sequence number, once the log has what `check_prepared` asks.
pub record ChecksOnce (msg : ParsedMessage) (n k : PbftNode) : Type 0 where
  pub block : PbftBlock
  pub own_block : get_block msg ≡ ok block
  pub one_call : k.calls ≡ Call.check_blocks (block.block_id ∷ []) ∷ n.calls
  pub is_unchecked : n.state.phase ≢ PbftPhase.checking
  pub is_current : (info msg).seq_num ≡ n.state.seq_num
  pub is_prepared : check_prepared (info msg) n.state.f k.msg_log ≡ ok true

module _ (env : Env) (msg : ParsedMessage) where
  checked :
      (n : PbftNode)
      → (info msg).seq_num ≡ n.state.seq_num
      → check_prepared (info msg) n.state.f n.msg_log ≡ ok true
      → ((check_blocks_if_not_checking env msg n).1.calls ≡ n.calls)
        ⊎ ChecksOnce msg n (check_blocks_if_not_checking env msg n).1
  unfolding check_blocks_if_not_checking
  checked n current h = elim (Bool-cases (n.state.phase == PbftPhase.checking)) [
    | inl e ↦ inl (rw e refl)
    | inr e ↦ rw e (go (get_block msg) refl e)
  ]
    where
      moved : PbftNode
      moved = record n { state = switch_to PbftPhase.checking n.state }

      check : PbftBlock → M (Unit {0})
      check block = do
        ok_checked ← request env (Call.check_blocks (block.block_id ∷ []))
        if ok_checked then done else fail (PbftError.internal_error "Failed to check blocks")

      asked :
          (b : PbftBlock)
          → get_block msg ≡ ok b
          → (n.state.phase == PbftPhase.checking) ≡ false
          → ChecksOnce msg n (check b moved).1
      asked b own e =
          if-Keeps (ChecksOnce msg n)
            (env.service.succeeds n.calls (Call.check_blocks (b.block_id ∷ []))) done
            (fail (PbftError.internal_error "Failed to check blocks")) (λ k c. c) (λ k c. c)
            (record moved { calls = Call.check_blocks (b.block_id ∷ []) ∷ n.calls })
            (record {
              block = b;
              own_block = own;
              one_call = refl;
              is_unchecked =
                  λ same. ground (arith, e, (==_iff n.state.phase PbftPhase.checking).1 same);
              is_current = current;
              is_prepared = h;
            })

      go :
          (r : Outcome PbftBlock)
          → get_block msg ≡ r
          → (n.state.phase == PbftPhase.checking) ≡ false
          → ((after check (r, moved)).1.calls ≡ n.calls)
            ⊎ ChecksOnce msg n (after check (r, moved)).1
      go (ok b) own e = inr (asked b own e)
      go (err x) own e = inl refl
      go panic own e = inl refl
      go out_of_fuel own e = inl refl

  check_if_prepared_lem :
      (n : PbftNode)
      → ((check_if_prepared env msg n).1.calls ≡ n.calls)
        ⊎ ChecksOnce msg n (check_if_prepared env msg n).1
  unfolding check_if_prepared
  check_if_prepared_lem n = elim (Bool-cases ((info msg).seq_num == n.state.seq_num)) [
    | inl e ↦ rw e (
        go (check_prepared (info msg) n.state.f n.msg_log)
          ((==_iff (info msg).seq_num n.state.seq_num).0 e) refl)
    | inr e ↦ inl (rw e refl)
  ]
    where
      next : Bool → M (Unit {0})
      next prepared = when prepared (check_blocks_if_not_checking env msg)

      go :
          (r : Outcome Bool)
          → (info msg).seq_num ≡ n.state.seq_num
          → check_prepared (info msg) n.state.f n.msg_log ≡ r
          → ((after next (r, n)).1.calls ≡ n.calls) ⊎ ChecksOnce msg n (after next (r, n)).1
      go (ok true) c e = checked n c e
      go (ok false) c e = inl refl
      go (err x) c e = inl refl
      go panic c e = inl refl
      go out_of_fuel c e = inl refl

  -- A `Prepare` message makes no call of the validator, or exactly the one that has its own block
  -- checked, whatever block is prepared; and this only in a phase other than Checking, for the current
  -- sequence number, and if `check_prepared` holds for the log with the message.
  pub on_prepare_lem :
      (n : PbftNode)
      → ((on_prepare env msg n).1.calls ≡ n.calls) ⊎ ChecksOnce msg n (on_prepare env msg n).1
  unfolding on_prepare
  on_prepare_lem n = elim (log_message_cases msg n) [
    | inl (v, e) ↦
        subst (λ r. Checks (after (λ _. check_if_prepared env msg) r)) (sym e)
          (with_message_first (check_if_prepared_lem (with_logged msg n)))
    | inr (v, e) ↦ inl (ap (λ r. (after (λ _. check_if_prepared env msg) r).1.calls) e)
  ]
    where
      Checks : Outcome (Unit {0}) × PbftNode → Type 0
      Checks p = (p.1.calls ≡ n.calls) ⊎ ChecksOnce msg n p.1

      with_message_first :
          {k : PbftNode}
          → (k.calls ≡ n.calls) ⊎ ChecksOnce msg (with_logged msg n) k
          → (k.calls ≡ n.calls) ⊎ ChecksOnce msg n k
      with_message_first (inl e) = inl e
      with_message_first (inr c) = inr (record {
        block = c.block;
        own_block = c.own_block;
        one_call = c.one_call;
        is_unchecked = c.is_unchecked;
        is_current = c.is_current;
        is_prepared = c.is_prepared;
      })
