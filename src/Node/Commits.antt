-- ===== src/Node/Commits.antt =====
-- When a `Commit` message commits a block.
use sawtooth_pbft.Common.{
  Bool-cases, ◌==◌, ==_iff, nat_eq, string_eq, bytes_eq, ◌≡◌, refl, sym, subst, ◌⊎◌, inl, inr, Bool,
  true, false, ◌∷◌,
}
use sawtooth_pbft.Protos.{PbftBlock, block_eq, info_eq, message_eq, seal_eq, view_change_eq}
use sawtooth_pbft.Error.{Outcome, ok, err, panic, out_of_fuel}
use sawtooth_pbft.ParsedMessage.{ParsedMessage, parsed_eq, info, get_block}
use sawtooth_pbft.State.{PbftPhase, phase_eq}
use sawtooth_pbft.Log.{entry_eq, check_committable}
use sawtooth_pbft.Service.{Call, Env}
use sawtooth_pbft.Node.{PbftNode, M, when}
use sawtooth_pbft.Node.Peer.{commit_block_if_committing, commit_if_committable, on_commit}
use sawtooth_pbft.MessageType.{type_eq}
use sawtooth_pbft.Log.Sets.{with_message}
use sawtooth_pbft.Node.Keeps.{after, log_message_cases}
use sawtooth_pbft.Handlers.{handle_commit}

-- The only call that a `Commit` message can make: its own block is committed, in the phase
-- `committing`, at the current sequence number, once the log has what `check_committable` asks.
pub record CommitsOnce (msg : ParsedMessage) (n k : PbftNode) : Type 0 where
  pub block : PbftBlock
  pub own_block : get_block msg ≡ ok block
  pub one_call : k.calls ≡ Call.commit_block block.block_id ∷ n.calls
  pub is_committing : n.state.phase ≡ PbftPhase.committing
  pub is_current : (info msg).seq_num ≡ n.state.seq_num
  pub is_committable : check_committable (info msg) n.state.f k.msg_log ≡ ok true

module _ (env : Env) (msg : ParsedMessage) where
  -- What `handle_commit` does to the calls and the log.
  abbrev Handled : PbftNode → PbftNode → Type 0
  Handled n k =
      (k.calls ≡ n.calls)
      ⊎ ((b : PbftBlock) × (get_block msg ≡ ok b)
          × (k.calls ≡ Call.commit_block b.block_id ∷ n.calls)
          × (k.msg_log ≡ n.msg_log))

  handle_commit-Handled : (n : PbftNode) → Handled n (handle_commit env msg n).1
  unfolding handle_commit
  handle_commit-Handled n = go (get_block msg) refl
    where
      answered : (b : PbftBlock) → get_block msg ≡ ok b → Handled n (handle_commit env msg n).1
      answered b e =
          elim (Bool-cases (env.service.succeeds n.calls (Call.commit_block b.block_id))) [
            | inl done_it ↦
                inr (b, e, rw (handle_commit, e, done_it) refl, rw (handle_commit, e, done_it) refl)
            | inr failed ↦
                inr (b, e, rw (handle_commit, e, failed) refl, rw (handle_commit, e, failed) refl)
          ]

      go : (r : Outcome PbftBlock) → get_block msg ≡ r → Handled n (handle_commit env msg n).1
      go (ok b) e = answered b e
      go (err x) e = inl (rw (handle_commit, e) refl)
      go panic e = inl (rw (handle_commit, e) refl)
      go out_of_fuel e = inl (rw (handle_commit, e) refl)

  committed :
      (n : PbftNode)
      → (info msg).seq_num ≡ n.state.seq_num
      → check_committable (info msg) n.state.f n.msg_log ≡ ok true
      → ((commit_block_if_committing env msg n).1.calls ≡ n.calls)
        ⊎ CommitsOnce msg n (commit_block_if_committing env msg n).1
  unfolding commit_block_if_committing
  committed n current h = elim (Bool-cases (n.state.phase == PbftPhase.committing)) [
    | inl e ↦ rw e (once e (handle_commit-Handled n))
    | inr e ↦ inl (rw e refl)
  ]
    where
      once :
          (n.state.phase == PbftPhase.committing) ≡ true
          → Handled n (handle_commit env msg n).1
          → ((handle_commit env msg n).1.calls ≡ n.calls)
            ⊎ CommitsOnce msg n (handle_commit env msg n).1
      once e (inl same) = inl same
      once e (inr (b, own, call, log)) = inr (record {
        block = b;
        own_block = own;
        one_call = call;
        is_committing = (==_iff n.state.phase PbftPhase.committing).0 e;
        is_current = current;
        is_committable = rw log h;
      })

  commit_if_committable_lem :
      (n : PbftNode)
      → ((commit_if_committable env msg n).1.calls ≡ n.calls)
        ⊎ CommitsOnce msg n (commit_if_committable env msg n).1
  unfolding commit_if_committable
  commit_if_committable_lem n = elim (Bool-cases ((info msg).seq_num == n.state.seq_num)) [
    | inl e ↦ rw e (
        go (check_committable (info msg) n.state.f n.msg_log)
          ((==_iff (info msg).seq_num n.state.seq_num).0 e) refl)
    | inr e ↦ inl (rw e refl)
  ]
    where
      next : Bool → M (Unit {0})
      next c = when c (commit_block_if_committing env msg)

      go :
          (r : Outcome Bool)
          → (info msg).seq_num ≡ n.state.seq_num
          → check_committable (info msg) n.state.f n.msg_log ≡ r
          → ((after next (r, n)).1.calls ≡ n.calls) ⊎ CommitsOnce msg n (after next (r, n)).1
      go (ok true) c e = committed n c e
      go (ok false) c e = inl refl
      go (err x) c e = inl refl
      go panic c e = inl refl
      go out_of_fuel c e = inl refl

  -- A `Commit` message makes no call of the validator, or exactly the one that commits its own block,
  -- and this only in the phase `committing`, for the current sequence number, and if
  -- `check_committable` holds for the log with the message.
  pub on_commit_lem :
      (n : PbftNode)
      → ((on_commit env msg n).1.calls ≡ n.calls) ⊎ CommitsOnce msg n (on_commit env msg n).1
  unfolding on_commit
  on_commit_lem n = elim (log_message_cases msg n) [
    | inl (v, e) ↦
        subst
          (λ r.
            ((after (λ _. commit_if_committable env msg) r).1.calls ≡ n.calls)
            ⊎ CommitsOnce msg n (after (λ _. commit_if_committable env msg) r).1)
          (sym e)
          (moved (commit_if_committable_lem (record n { msg_log = with_message msg n.msg_log })))
    | inr (v, e) ↦
        inl (
          subst (λ r. (after (λ _. commit_if_committable env msg) r).1.calls ≡ n.calls) (sym e)
            refl)
  ]
    where
      moved :
          {k : PbftNode}
          → (k.calls ≡ n.calls)
            ⊎ CommitsOnce msg (record n { msg_log = with_message msg n.msg_log }) k
          → (k.calls ≡ n.calls) ⊎ CommitsOnce msg n k
      moved (inl e) = inl e
      moved (inr c) = inr (record {
        block = c.block;
        own_block = c.own_block;
        one_call = c.one_call;
        is_committing = c.is_committing;
        is_current = c.is_current;
        is_committable = c.is_committable;
      })
