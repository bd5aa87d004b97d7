-- ===== src/Examples/Turns.antt =====
-- Nodes at a change of their view and at the end of a block, and a message of a peer.
use sawtooth_pbft.Common.{
  length, nat_eq, string_eq, bytes_beq, bytes_eq, ◌≤◌, ◌<◌, ◌≡◌, refl, ◌⊎◌, [], ◌∷◌,
}
use sawtooth_pbft.MessageType.{PbftMessageType, type_beq, type_eq, from_str, type_name}
use sawtooth_pbft.Error.{ok}
use sawtooth_pbft.ParsedMessage.{ParsedMessage, parsed_beq, parsed_eq, wrapper_info, info}
use sawtooth_pbft.State.{
  PbftPhase, PbftMode, phase_eq, get_primary_id, upgrade_role, discard_current_block,
}
use sawtooth_pbft.Log.{
  entry_eq, contains, insert, is_type_seq_view, get_messages_of_type_seq_view,
  log_has_required_msgs, add_message,
}
use sawtooth_pbft.Log.Sets.{with_message}
use sawtooth_pbft.Node.{PbftNode, done, log_message}
use sawtooth_pbft.Handlers.{
  set_current_view, check_is_primary, ignore_working_block, become_primary, take_role,
  check_received_enough_view_changes, adopt_view, handle_view_change,
}
use sawtooth_pbft.Node.Peer.{
  propose_view_change_if_enough_messages, join_view_change, on_view_change, on_peer_message,
}
use sawtooth_pbft.Node.Blocks.{on_block_commit}
use sawtooth_pbft.Handlers.Views.{EntersView}
use sawtooth_pbft.Node.ViewChanges.{view_changes, on_view_change-EntersView}
use sawtooth_pbft.Examples.Logs.{test_message, test_messages, log_of}
use sawtooth_pbft.Examples.Nodes.{test_state, test_node, test_env}
use sawtooth_pbft.Protos.{
  block_eq, info_beq, info_eq, message_beq, message_eq, seal_eq, view_change_eq,
}
use sawtooth_pbft.Node.Keeps.{with_logged}
use sawtooth_pbft.Node.Forgets.{adopt_view-on_block_commit}
use sawtooth_pbft.Engine.{Update, handle_update}
use sawtooth_pbft.Engine.Sequence.{OneStep}
use sawtooth_pbft.Engine.Steps.{handle_update-OneStep}

-- A node in view 3 that is changing its view and has two `ViewChange` messages for view 1.
abbrev changing_node : PbftNode
changing_node = record test_node {
  state = record test_state { view = 3; mode = PbftMode.view_changing };
  msg_log = log_of (
      test_message PbftMessageType.view_change 1 1
      ∷ test_message PbftMessageType.view_change 1 3
      ∷ []);
}

abbrev third_change : ParsedMessage
third_change = test_message PbftMessageType.view_change 1 4

is_view_change : from_str (info third_change).msg_type ≡ PbftMessageType.view_change
unfolding info wrapper_info from_str type_name
is_view_change = refl

older_primary :
    get_primary_id (set_current_view (info third_change).view changing_node.state) ≡ ok (2 ∷ [])
unfolding get_primary_id set_current_view info wrapper_info
older_primary = refl

on_view_change_example :
    ((3 ≤ length (view_changes third_change changing_node.msg_log))
      × ((on_view_change test_env (λ m. done) third_change changing_node).0 ≡ ok tt)
      × EntersView
          (info third_change).view
          (2 ∷ [])
          changing_node.state
          (on_view_change test_env (λ m. done) third_change changing_node).1.state
      × ((on_view_change test_env (λ m. done) third_change changing_node).1.msg_log.messages
          ≡ (with_message third_change changing_node.msg_log).messages))
    ⊎ ((length (view_changes third_change changing_node.msg_log) < 3)
        × (on_view_change test_env (λ m. done) third_change changing_node
            ≡ (ok tt, with_logged third_change changing_node)))
on_view_change_example =
    on_view_change-EntersView test_env third_change (λ m. done) changing_node (2 ∷ [])
      is_view_change refl older_primary

-- The three messages suffice, so the node goes from view 3 back to view 1.
older_view_adopted :
    (on_view_change test_env (λ m. done) third_change changing_node).1.state.view ≡ 1
unfolding on_view_change join_view_change propose_view_change_if_enough_messages handle_view_change
    check_received_enough_view_changes log_message add_message insert contains log_has_required_msgs
    get_messages_of_type_seq_view is_type_seq_view from_str type_name info wrapper_info adopt_view
    set_current_view take_role check_is_primary get_primary_id bytes_beq become_primary upgrade_role
    ignore_working_block discard_current_block parsed_beq type_beq message_beq info_beq
older_view_adopted = refl

abbrev committing_node : PbftNode
committing_node = record test_node {
  state = record test_state { phase = PbftPhase.committing };
  msg_log = log_of test_messages;
}

abbrev last_commit : ParsedMessage
last_commit = test_message PbftMessageType.commit 0 2

-- The node has finished its block, and then adopts view 1.
abbrev finishing_node : PbftNode
finishing_node = record test_node { state = record test_state { phase = PbftPhase.finished } }

newer_primary :
    get_primary_id (set_current_view (info third_change).view finishing_node.state) ≡ ok (2 ∷ [])
unfolding get_primary_id set_current_view info wrapper_info
newer_primary = refl

adopt_view-on_block_commit_example :
    (on_block_commit test_env (7 ∷ 7 ∷ 7 ∷ []) (adopt_view test_env third_change finishing_node).1
      ≡ (ok tt, (adopt_view test_env third_change finishing_node).1))
    × ((on_block_commit test_env
          (7 ∷ 7 ∷ 7 ∷ [])
          (adopt_view test_env third_change finishing_node).1).1.state.seq_num
        ≡ 5)
adopt_view-on_block_commit_example =
    adopt_view-on_block_commit test_env third_change finishing_node (2 ∷ []) (7 ∷ 7 ∷ 7 ∷ [])
      newer_primary

handle_update-OneStep_example :
    OneStep 5
      (handle_update test_env
        (on_peer_message test_env 2)
        (Update.block_commit (7 ∷ 7 ∷ 7 ∷ []))
        finishing_node).1.state.seq_num
handle_update-OneStep_example =
    handle_update-OneStep test_env 2 (Update.block_commit (7 ∷ 7 ∷ 7 ∷ [])) finishing_node
