-- ===== src/Handlers/Views.antt =====
-- What a new view makes of a node.
use sawtooth_pbft.Common.{
  if◌then◌else◌, Bool-cases, ◌==◌, nat_eq, string_eq, Bytes, bytes_eq, ℕ, ◌≡◌, refl, sym, ap, ◌∙◌,
  subst, inl, inr, Bool, true, false, Option, none, some,
}
use sawtooth_pbft.Protos.{PbftBlock, block_eq, info_eq, message_eq, seal_eq, view_change_eq}
use sawtooth_pbft.MessageType.{type_eq}
use sawtooth_pbft.Error.{Outcome, ok, err, panic, out_of_fuel}
use sawtooth_pbft.ParsedMessage.{ParsedMessage, parsed_eq, info}
use sawtooth_pbft.State.{
  PbftNodeRole, PbftPhase, PbftMode, phase_eq, PbftState, get_primary_id, upgrade_role,
  downgrade_role, discard_current_block,
}
use sawtooth_pbft.Log.{entry_eq}
use sawtooth_pbft.Service.{Call, Env}
use sawtooth_pbft.Node.{PbftNode, M, ◌>>=◌, query_state, done, modify_state, request, now}
use sawtooth_pbft.Handlers.{
  set_current_view, check_is_primary, ignore_working_block, become_primary, become_secondary,
  take_role, adopt_view,
}
use sawtooth_pbft.Node.Keeps.{after}

-- A node at the start of a view, in the role that the view gives it.
pub record EntersView (view : ℕ) (primary_id : Bytes) (s k : PbftState) : Type 0 where
  pub in_view : k.view ≡ view
  pub in_role :
      k.role ≡ (if s.id == primary_id then PbftNodeRole.primary else PbftNodeRole.secondary)
  pub is_normal : k.mode ≡ PbftMode.normal
  pub at_start : k.phase ≡ PbftPhase.pre_preparing
  pub no_block : k.working_block ≡ none
  pub same_seq : k.seq_num ≡ s.seq_num

-- `become_primary` changes the role and no other part of the state.
become_primary-state :
    (env : Env) (n : PbftNode)
    → ((become_primary env n).0 ≡ ok tt) × ((become_primary env n).1.state ≡ upgrade_role n.state)
unfolding become_primary
become_primary-state env n = go n.state.working_block
  where
    begin_block : M (Unit {0})
    begin_block = request env (Call.initialize_block none) >>= λ initialized. done

    go :
        (w : Option PbftBlock)
        → ((after
              (λ _. begin_block)
              (ignore_working_block env w (record n { state = upgrade_role n.state }))).0
            ≡ ok tt)
          × ((after
                (λ _. begin_block)
                (ignore_working_block env w (record n { state = upgrade_role n.state }))).1.state
              ≡ upgrade_role n.state)
    go none = (refl, refl)
    go (some b) = (refl, refl)

-- The end of `adopt_view`.
abbrev restart : Env → M (Unit {0})
restart env = now env >>= λ t. modify_state (discard_current_block t)

module _ (env : Env) (view : ℕ) (primary_id : Bytes) (s : PbftState) where
  abbrev Entered : Outcome (Unit {0}) × PbftNode → Type 0
  Entered (o, k) = (o ≡ ok tt) × EntersView view primary_id s k.state

  restarted :
      (o : Outcome (Unit {0})) (k : PbftNode)
      → o ≡ ok tt
      → k.state.view ≡ view
      → k.state.role ≡ (if s.id == primary_id then PbftNodeRole.primary else PbftNodeRole.secondary)
      → k.state.seq_num ≡ s.seq_num
      → Entered (after (λ _. restart env) (o, k))
  unfolding discard_current_block
  restarted (ok _) k e v r q = (
    refl,
    record {
      in_view = v;
      in_role = r;
      is_normal = refl;
      at_start = refl;
      no_block = refl;
      same_seq = q;
    },
  )
  restarted (err x) k e v r q = cc
  restarted panic k e v r q = cc
  restarted out_of_fuel k e v r q = cc

-- A node that adopts a view whose primary is known succeeds, whatever the validator answers: it is in
-- that view, primary exactly if its ID is the primary's, and at the start of its sequence number, in
-- normal mode and without a block.
pub adopt_view-EntersView :
    (env : Env) (msg : ParsedMessage) (n : PbftNode) (p : Bytes)
    → get_primary_id (set_current_view (info msg).view n.state) ≡ ok p
    → ((adopt_view env msg n).0 ≡ ok tt)
      × EntersView (info msg).view p n.state (adopt_view env msg n).1.state
unfolding adopt_view take_role check_is_primary become_secondary upgrade_role downgrade_role
    set_current_view
adopt_view-EntersView env msg n p h = subst Result (sym step) (elim (Bool-cases (n.state.id == p)) [
  | inl e ↦ rw e (as_primary e)
  | inr e ↦ rw e (as_secondary e)
])
  where
    moved : PbftNode
    moved = record n { state = set_current_view (info msg).view n.state }

    tail : Bool → M (Unit {0})
    tail b = if b then become_primary env else become_secondary

    Result : Outcome Bool × PbftNode → Type 0
    Result r =
        ((after (λ _. restart env) (after tail r)).0 ≡ ok tt)
        × EntersView (info msg).view p n.state (after (λ _. restart env) (after tail r)).1.state

    step : query_state check_is_primary moved ≡ (ok (n.state.id == p), moved)
    step = rw (check_is_primary, h) refl

    as_primary : (n.state.id == p) ≡ true → Result (ok true, moved)
    as_primary e =
        let done_so = become_primary-state env moved in
        restarted env (info msg).view p n.state (become_primary env moved).0
          (become_primary env moved).1 done_so.0 (ap (λ s. s.view) done_so.1)
          (ap (λ s. s.role) done_so.1 ∙ rw e refl) (ap (λ s. s.seq_num) done_so.1)

    as_secondary : (n.state.id == p) ≡ false → Result (ok false, moved)
    as_secondary e =
        restarted env (info msg).view p n.state (ok tt)
          (record moved { state = downgrade_role moved.state }) refl refl (rw e refl) refl
