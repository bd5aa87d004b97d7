-- ===== src/Node/Progress.antt =====
-- `on_block_commit` and the sequence number.
use sawtooth_pbft.Common.{
  if◌then◌else◌, Bool-cases, is_none, ◌==◌, ==_iff, nat_eq, string_eq, Bytes, bytes_eq, add64, ℕ,
  String, ◌≡◌, refl, sym, ap, subst, ◌≢◌, ◌⊎◌, inl, inr, true, false, ◌&&◌, Option, none, some,
  List, arith,
}
use sawtooth_pbft.Protos.{PbftBlock, block_eq, info_eq, message_eq, seal_eq, view_change_eq}
use sawtooth_pbft.MessageType.{PbftMessageType, type_eq}
use sawtooth_pbft.Error.{Outcome, ok, panic}
use sawtooth_pbft.ParsedMessage.{parsed_eq}
use sawtooth_pbft.State.{
  PbftPhase, phase_beq, phase_beq_iff, phase_eq, PbftState, max_faulty, is_primary, upgrade_role,
  downgrade_role, next_phase, switch_phase, at_forced_view_change,
}
use sawtooth_pbft.Log.{entry_eq, get_messages_of_type_seq, garbage_collect}
use sawtooth_pbft.Service.{Call, Env}
use sawtooth_pbft.Node.{
  PbftNode, M, ◌>>=◌, ◌>>◌, pure, lift, query_state, reads_log, done, get_state, modify_state,
  modify_log, when, request, switch_to,
}
use sawtooth_pbft.Node.Keeps.{Keeps, >>=-Keeps, if-Keeps}
use sawtooth_pbft.Handlers.{
  set_current_view, check_is_primary, ignore_working_block, become_primary, become_secondary,
  take_role, force_view_change,
}
use sawtooth_pbft.Node.Seal.{get_settings, peers_at}
use sawtooth_pbft.Node.Blocks.{
  same_set, set_peers, set_f, take_peers, update_membership, is_working_block, first_block,
  set_working_block, next_block, needs_view_change, restart_timeout, start_block, finish_block,
  on_block_commit,
}
use sawtooth_pbft.Node.Sealing.{get_settings-state, peers_at-state}

-- The node is at a sequence number, before the first message of its block.
abbrev pub StartsAt : ℕ → PbftNode → Type 0
StartsAt seq n = (n.state.seq_num ≡ seq) × (n.state.phase ≡ PbftPhase.pre_preparing)

lift-Keeps : {A : Type 0} (P : PbftNode → Type 0) (r : Outcome A) → Keeps P (lift r)
lift-Keeps P r n p = p

module _ (seq : ℕ) (env : Env) where
  ignore_working_block-StartsAt :
      (b : Option PbftBlock) → Keeps (StartsAt seq) (ignore_working_block env b)
  unfolding ignore_working_block
  ignore_working_block-StartsAt none n p = p
  ignore_working_block-StartsAt (some b) n p = p

  become_primary-StartsAt : Keeps (StartsAt seq) (become_primary env)
  unfolding become_primary upgrade_role
  become_primary-StartsAt n p =
      >>=-Keeps (StartsAt seq) (ignore_working_block env n.state.working_block)
        (λ _. request env (Call.initialize_block none) >>= λ initialized. done)
        (ignore_working_block-StartsAt n.state.working_block) (λ a k q. q)
        (record n { state = upgrade_role n.state }) p

  take_role-StartsAt : Keeps (StartsAt seq) (take_role env)
  unfolding take_role become_secondary downgrade_role
  take_role-StartsAt =
      >>=-Keeps (StartsAt seq) (query_state check_is_primary)
        (λ p. if p then become_primary env else become_secondary) (λ n p. p)
        (λ b.
          if-Keeps (StartsAt seq) b (become_primary env) become_secondary become_primary-StartsAt
            (λ n p. p))

  force_view_change-StartsAt : Keeps (StartsAt seq) (force_view_change env)
  unfolding force_view_change set_current_view
  force_view_change-StartsAt n p =
      take_role-StartsAt (record n { state = set_current_view (add64 n.state.view 1) n.state }) p

  get_settings-StartsAt :
      (id : Bytes) (keys : List String) → Keeps (StartsAt seq) (get_settings env id keys)
  get_settings-StartsAt id keys n p =
      subst (λ s. (s.seq_num ≡ seq) × (s.phase ≡ PbftPhase.pre_preparing))
        (sym (get_settings-state env id keys n)) p

  take_peers-StartsAt : (peers : List Bytes) → Keeps (StartsAt seq) (take_peers peers)
  unfolding take_peers
  take_peers-StartsAt peers n p =
      if-Keeps (StartsAt seq) (max_faulty peers == 0) (lift panic)
        (modify_state (set_f (max_faulty peers)) >> pure true) (λ k q. q) (λ k q. q)
        (record n { state = set_peers peers n.state }) p

  update_membership-StartsAt : (id : Bytes) → Keeps (StartsAt seq) (update_membership env id)
  unfolding update_membership
  update_membership-StartsAt id =
      >>=-Keeps (StartsAt seq) (peers_at env id)
        (λ peers.
          get_state >>= λ s. if same_set peers s.peer_ids then pure false else take_peers peers)
        (λ n p.
          subst (λ s. (s.seq_num ≡ seq) × (s.phase ≡ PbftPhase.pre_preparing))
            (sym (peers_at-state env id n)) p)
        (λ peers n p.
          if-Keeps (StartsAt seq) (same_set peers n.state.peer_ids) (pure false) (take_peers peers)
            (λ k q. q) (take_peers-StartsAt peers) n p)

  needs_view_change-StartsAt : (id : Bytes) → Keeps (StartsAt seq) (needs_view_change env id)
  unfolding needs_view_change
  needs_view_change-StartsAt id =
      >>=-Keeps (StartsAt seq) (query_state at_forced_view_change)
        (λ forced. if forced then pure true else update_membership env id) (λ n p. p)
        (λ b.
          if-Keeps (StartsAt seq) b (pure true) (update_membership env id) (λ n p. p)
            (update_membership-StartsAt id))

  start_block-StartsAt : (id : Bytes) → Keeps (StartsAt seq) (start_block env id)
  unfolding start_block
  start_block-StartsAt id n p =
      if-Keeps (StartsAt seq) (is_primary n.state && is_none n.state.working_block)
        (request env (Call.initialize_block (some id)) >>= λ started. done) done (λ k q. q)
        (λ k q. q) n p

  -- The end of `on_block_commit`, once the working block is set.
  abbrev collect_and_start : Bytes → M (Unit {0})
  collect_and_start id = do
    s ← get_state
    modify_log (garbage_collect s.seq_num id)
    restart_timeout env
    start_block env id

  collect_and_start-StartsAt : (id : Bytes) → Keeps (StartsAt seq) (collect_and_start id)
  unfolding restart_timeout
  collect_and_start-StartsAt id n p = start_block-StartsAt id _ p

  abbrev view_and_start : Bytes → M (Unit {0})
  view_and_start id = do
    needed ← needs_view_change env id
    when needed (force_view_change env)
    collect_and_start id

  view_and_start-StartsAt : (id : Bytes) → Keeps (StartsAt seq) (view_and_start id)
  view_and_start-StartsAt id =
      >>=-Keeps (StartsAt seq) (needs_view_change env id)
        (λ needed. when needed (force_view_change env) >> collect_and_start id)
        (needs_view_change-StartsAt id)
        (λ b.
          >>=-Keeps (StartsAt seq) (when b (force_view_change env)) (λ _. collect_and_start id)
            (if-Keeps (StartsAt seq) b (force_view_change env) done force_view_change-StartsAt
              (λ n p. p))
            (λ _. collect_and_start-StartsAt id))

  abbrev block_and_start : Bytes → M (Unit {0})
  block_and_start id = do
    s ← get_state
    news ← reads_log (get_messages_of_type_seq PbftMessageType.block_new s.seq_num)
    block ← lift (first_block news)
    modify_state (set_working_block block)
    view_and_start id

  block_and_start-StartsAt : (id : Bytes) → Keeps (StartsAt seq) (block_and_start id)
  block_and_start-StartsAt id n p =
      >>=-Keeps (StartsAt seq)
        (lift (
          first_block
            (get_messages_of_type_seq PbftMessageType.block_new n.state.seq_num n.msg_log)))
        (λ block. modify_state (set_working_block block) >> view_and_start id) (λ k q. q)
        (λ b k q. view_and_start-StartsAt id (record k { state = set_working_block b k.state }) q) n
        p

next_block_starts :
    (s : PbftState)
    → s.phase ≡ PbftPhase.finished
    → ((next_block s).seq_num ≡ add64 s.seq_num 1)
      × ((next_block s).phase ≡ PbftPhase.pre_preparing)
unfolding next_block switch_to switch_phase next_phase
next_block_starts s finished = (
  rw (next_block, switch_to, switch_phase, allowed) refl,
  rw (next_block, switch_to, switch_phase, allowed) refl,
)
  where
    allowed : phase_beq PbftPhase.pre_preparing (next_phase s.phase) ≡ true
    allowed =
        (phase_beq_iff PbftPhase.pre_preparing (next_phase s.phase)).1
          (sym (ap next_phase finished))

module _ (env : Env) (id : Bytes) where
  finish_block-StartsAt :
      (n : PbftNode)
      → n.state.phase ≡ PbftPhase.finished
      → StartsAt (add64 n.state.seq_num 1) (finish_block env id n).1
  unfolding finish_block
  finish_block-StartsAt n finished =
      block_and_start-StartsAt (add64 n.state.seq_num 1) env id
        (record n { state = next_block n.state }) (next_block_starts n.state finished)

  -- The commit of a block that is not the working block, or of a node that has not finished it, does
  -- nothing. The commit of the finished working block takes the node to the next sequence number and
  -- to the phase `pre_preparing`, whatever the rest of the handler does, even where it panics.
  pub on_block_commit_lem :
      (n : PbftNode)
      → (((n.state.phase ≢ PbftPhase.finished) ⊎ (is_working_block id n.state ≡ false))
          × (on_block_commit env id n ≡ (ok tt, n)))
        ⊎ ((n.state.phase ≡ PbftPhase.finished)
            × (is_working_block id n.state ≡ true)
            × StartsAt (add64 n.state.seq_num 1) (on_block_commit env id n).1)
  unfolding on_block_commit
  on_block_commit_lem n = elim (Bool-cases (n.state.phase == PbftPhase.finished)) [
    | inl e ↦ elim (Bool-cases (is_working_block id n.state)) [
      | inl w ↦ inr (finished e, w, rw (e, w) (finish_block-StartsAt n (finished e)))
      | inr w ↦ inl (inr w, rw (e, w) refl)
    ]
    | inr e ↦ inl (inl (λ f. other e f), rw e refl)
  ]
    where
      finished : (n.state.phase == PbftPhase.finished) ≡ true → n.state.phase ≡ PbftPhase.finished
      finished e = (==_iff n.state.phase PbftPhase.finished).0 e

      other : (n.state.phase == PbftPhase.finished) ≡ false → n.state.phase ≡ PbftPhase.finished → ⊥
      other e f = ground (arith, e, (==_iff n.state.phase PbftPhase.finished).1 f)
