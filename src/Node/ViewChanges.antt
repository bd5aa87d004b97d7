-- ===== src/Node/ViewChanges.antt =====
-- How a node that is changing its view ends the change.
use sawtooth_pbft.Common.{
  leb, if◌then◌else◌, leb→le, Bool-cases, length, Bytes, ◌≤◌, ◌<◌, ◌≡◌, refl, sym, ap, ◌∙◌, subst,
  ◌⊎◌, inl, inr, Bool, true, false, List, arith,
}
use sawtooth_pbft.MessageType.{PbftMessageType, from_str}
use sawtooth_pbft.Error.{ok}
use sawtooth_pbft.ParsedMessage.{ParsedMessage, info}
use sawtooth_pbft.State.{PbftMode, get_primary_id}
use sawtooth_pbft.Log.{PbftLog, get_messages_of_type_seq_view, log_has_required_msgs, quorum}
use sawtooth_pbft.Log.Sets.{with_message}
use sawtooth_pbft.Service.{Env}
use sawtooth_pbft.Node.{PbftNode, M, done, log_message}
use sawtooth_pbft.Handlers.{
  set_current_view, check_received_enough_view_changes, adopt_view, handle_view_change,
}
use sawtooth_pbft.Node.Peer.{
  propose_view_change_if_enough_messages, join_view_change, on_view_change,
}
use sawtooth_pbft.Handlers.Views.{EntersView, adopt_view-EntersView}
use sawtooth_pbft.Node.Keeps.{after, with_logged, log_message_cases}
use sawtooth_pbft.Node.Unlogged.{handle_view_change-LogKeeps}

-- The `ViewChange` messages of the view and sequence number of `msg` that are logged with it.
abbrev pub view_changes : ParsedMessage → PbftLog → List ParsedMessage
view_changes msg log =
    get_messages_of_type_seq_view PbftMessageType.view_change (info msg).seq_num (info msg).view
      (with_message msg log)

module _ (env : Env) (msg : ParsedMessage) where
  handle_view_change-counted :
      (n : PbftNode) (b : Bool)
      → leb (quorum n.state.f) (length (view_changes msg n.msg_log)) ≡ b
      → handle_view_change env msg (with_logged msg n)
        ≡ (if b then adopt_view env msg else done) (with_logged msg n)
  unfolding handle_view_change check_received_enough_view_changes log_has_required_msgs
  handle_view_change-counted n true e = rw e refl
  handle_view_change-counted n false e = rw e refl

  join_view_change-changing :
      (send : ParsedMessage → M (Unit {0})) (n : PbftNode)
      → n.state.mode ≡ PbftMode.view_changing
      → join_view_change env send msg n ≡ handle_view_change env msg n
  unfolding join_view_change propose_view_change_if_enough_messages
  join_view_change-changing send n e = rw e refl

  on_view_change-changing :
      (send : ParsedMessage → M (Unit {0})) (n : PbftNode)
      → from_str (info msg).msg_type ≡ PbftMessageType.view_change
      → n.state.mode ≡ PbftMode.view_changing
      → on_view_change env send msg n ≡ handle_view_change env msg (with_logged msg n)
  unfolding on_view_change
  on_view_change-changing send n t e =
      ap (after (λ _. join_view_change env send msg)) (logged_now t)
      ∙ join_view_change-changing send (with_logged msg n) e
    where
      logged_now :
          from_str (info msg).msg_type ≡ PbftMessageType.view_change
          → log_message msg n ≡ (ok tt, with_logged msg n)
      logged_now t = elim (log_message_cases msg n) [
        | inl (v, h) ↦ h
        | inr (v, h) ↦ absurd (v (inl t))
      ]

  on_view_change-logs :
      (send : ParsedMessage → M (Unit {0})) (n : PbftNode)
      → from_str (info msg).msg_type ≡ PbftMessageType.view_change
      → n.state.mode ≡ PbftMode.view_changing
      → (on_view_change env send msg n).1.msg_log.messages ≡ (with_message msg n.msg_log).messages
  on_view_change-logs send n t e =
      ap (λ r. r.1.msg_log.messages) (on_view_change-changing send n t e)
      ∙ (handle_view_change-LogKeeps {Q = λ ms. ms ≡ (with_message msg n.msg_log).messages} env
            msg).at
          (with_logged msg n) refl

  -- A node that is changing its view, and gets a `ViewChange` message for a view with a known primary,
  -- logs it and keeps all that it had logged. If the log then has `2f + 1` such messages of that view and
  -- sequence number, the node enters that view, whether it is newer or older than its own; else nothing
  -- more happens.
  pub on_view_change-EntersView :
      (send : ParsedMessage → M (Unit {0})) (n : PbftNode) (p : Bytes)
      → from_str (info msg).msg_type ≡ PbftMessageType.view_change
      → n.state.mode ≡ PbftMode.view_changing
      → get_primary_id (set_current_view (info msg).view n.state) ≡ ok p
      → ((quorum n.state.f ≤ length (view_changes msg n.msg_log))
          × ((on_view_change env send msg n).0 ≡ ok tt)
          × EntersView (info msg).view p n.state (on_view_change env send msg n).1.state
          × ((on_view_change env send msg n).1.msg_log.messages
              ≡ (with_message msg n.msg_log).messages))
        ⊎ ((length (view_changes msg n.msg_log) < quorum n.state.f)
            × (on_view_change env send msg n ≡ (ok tt, with_logged msg n)))
  on_view_change-EntersView send n p t e known =
      let runs = on_view_change-changing send n t e in
      elim (Bool-cases (leb (quorum n.state.f) (length (view_changes msg n.msg_log)))) [
        | inl h ↦
            let adopted = runs ∙ handle_view_change-counted n true h in
            let entered = adopt_view-EntersView env msg (with_logged msg n) p known in
            inl (
              leb→le (quorum n.state.f) (length (view_changes msg n.msg_log)) h,
              ap (λ r. r.0) adopted ∙ entered.0,
              subst (λ r. EntersView (info msg).view p n.state r.1.state) (sym adopted) entered.1,
              (on_view_change-logs send n t e),
            )
        | inr h ↦ inr (ground arith, runs ∙ handle_view_change-counted n false h)
      ]
