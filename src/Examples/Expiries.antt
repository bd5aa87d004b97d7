-- ===== src/Examples/Expiries.antt =====
-- A secondary whose timeout for the primary is watched, on concrete data.
use sawtooth_pbft.Common.{
  nat_eq, string_eq, bytes_beq, bytes_eq, ◌≡◌, refl, ap, true, false, some, [], ◌∷◌,
}
use sawtooth_pbft.Protos.{
  PbftSeal, block_beq, block_eq, info_eq, message_eq, seal_eq, view_change_eq,
}
use sawtooth_pbft.MessageType.{PbftMessageType, type_beq, type_eq, from_str, type_name}
use sawtooth_pbft.Error.{ok}
use sawtooth_pbft.Timing.{TimeoutState, check_expired}
use sawtooth_pbft.State.{
  PbftMode, phase_eq, PbftState, get_primary_id, is_primary, next_phase, switch_phase,
}
use sawtooth_pbft.Log.{
  entry_eq, contains, insert, is_type_seq, is_type_seq_view, get_messages_of_type_seq,
  get_messages_of_type_seq_view, get_one_msg, add_message, get_consensus_seal,
}
use sawtooth_pbft.Service.{Env}
use sawtooth_pbft.Node.{PbftNode, done, log_message, switch_to}
use sawtooth_pbft.Node.Broadcast.{broadcast_message}
use sawtooth_pbft.Node.Proposals.{stuck}
use sawtooth_pbft.Engine.{reported, Tickers, work}
use sawtooth_pbft.Engine.Watch.{looked, work-proposes}
use sawtooth_pbft.Examples.Logs.{test_message, test_pre_prepare, log_of}
use sawtooth_pbft.Examples.Nodes.{test_state, test_node, test_env}
use sawtooth_pbft.ParsedMessage.{
  parsed_beq, parsed_eq, wrapper_info, info, wrapper_message, get_pbft_message, get_block,
}
use sawtooth_pbft.Handlers.{
  any_block, check_existing, enter_preparing, accept_pre_prepare, block_new_exists,
  handle_pre_prepare,
}
use sawtooth_pbft.Engine.Unwatched.{IsUnwatched, repeat, handle_pre_prepare-work}
use sawtooth_pbft.Node.Peer.{on_peer_message}
use sawtooth_pbft.Engine.Loop.{node_loop}
use sawtooth_pbft.Engine.Stalled.{timeouts, node_loop-stalled}

abbrev watched_state : PbftState
watched_state = record test_state {
  faulty_primary_timeout = record { state = TimeoutState.active; duration = 10; start_time = 3 };
}

abbrev found_seal : PbftSeal
found_seal = record { previous_id = []; summary = []; previous_commit_votes = [] }

abbrev watching_node : PbftNode
watching_node = record test_node {
  state = watched_state;
  msg_log = record (log_of []) {
    seals = record { block_id = []; seq_num = 4; seal = found_seal } ∷ [];
  };
  readings = 20;
}

abbrev watching_env : Env
watching_env = record test_env {
  codec = record (test_env.codec) { write_view_change = λ v. some (1 ∷ []) };
}

work-proposes_example :
    work watching_env (λ m. done) watching_node
    ≡ reported tt
        (broadcast_message watching_env (λ m. done) PbftMessageType.view_change (1 ∷ []))
        (stuck (looked watching_env watching_node))
unfolding check_expired get_consensus_seal
work-proposes_example =
    work-proposes watching_env (λ m. done) watching_node refl found_seal (1 ∷ []) refl refl refl
      refl

-- The same node, while it is changing its view, in three rounds in which both tickers are due.
abbrev due_tickers : Tickers
due_tickers = record {
  working = record { last = 0; timeout = 1 };
  backlog = record { last = 0; timeout = 1 };
}

node_loop-stalled_example :
    (later : Tickers) × (k : PbftNode) × (node_loop watching_env
        (on_peer_message watching_env 2)
        (timeouts 3)
        due_tickers
        (stuck watching_node)
      ≡ (ok (true, later), k))
    × (k.state.mode ≡ PbftMode.view_changing)
    × (k.calls ≡ [])
node_loop-stalled_example =
    node_loop-stalled watching_env (on_peer_message watching_env 2) 3 due_tickers
      (stuck watching_node) refl refl refl

-- A secondary that has the block of the `PrePrepare`.
abbrev informed_node : PbftNode
informed_node = record test_node {
  msg_log = log_of (test_message PbftMessageType.block_new 0 2 ∷ []);
}

abbrev prepared_node : PbftNode
prepared_node = (handle_pre_prepare test_env test_pre_prepare informed_node).1

pre_prepare_accepted :
    ((handle_pre_prepare test_env test_pre_prepare informed_node).0 ≡ ok tt)
    × (is_primary prepared_node.state ≡ false)
unfolding handle_pre_prepare accept_pre_prepare check_existing block_new_exists any_block
    get_messages_of_type_seq is_type_seq get_one_msg get_messages_of_type_seq_view is_type_seq_view
    enter_preparing log_message add_message insert contains parsed_beq info wrapper_info get_block
    get_pbft_message wrapper_message block_beq bytes_beq get_primary_id type_name from_str switch_to
    switch_phase next_phase type_beq
pre_prepare_accepted = (refl, refl)

handle_pre_prepare-work_example :
    IsUnwatched prepared_node
    × ((repeat 3 (work test_env (λ m. done)) prepared_node).0 ≡ ok tt)
    × ((repeat 3 (work test_env (λ m. done)) prepared_node).1.calls ≡ prepared_node.calls)
    × ((repeat 3 (work test_env (λ m. done)) prepared_node).1.state.phase
        ≡ prepared_node.state.phase)
unfolding info wrapper_info
handle_pre_prepare-work_example =
    handle_pre_prepare-work test_env (λ m. done) test_pre_prepare informed_node prepared_node 3
      (ap (λ r. (r, prepared_node)) pre_prepare_accepted.0) refl pre_prepare_accepted.1
