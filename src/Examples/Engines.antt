-- ===== src/Examples/Engines.antt =====
-- An engine whose validator sends a block and a message and asks it to stop.
use sawtooth_pbft.Common.{All, ◌≡◌, refl, inl, false, none, some, List, [], ◌∷◌, ◌++◌}
use sawtooth_pbft.Protos.{Block}
use sawtooth_pbft.Error.{ok}
use sawtooth_pbft.Outcome.{◌>>=◌, or_panic}
use sawtooth_pbft.Codec.{Codec}
use sawtooth_pbft.ParsedMessage.{bare_peer_message}
use sawtooth_pbft.Config.{default_config}
use sawtooth_pbft.Config.Load.{load_pbft_config}
use sawtooth_pbft.State.{PbftState}
use sawtooth_pbft.Service.{Env}
use sawtooth_pbft.Node.{done}
use sawtooth_pbft.Node.Peer.{on_peer_message}
use sawtooth_pbft.Handlers.Agreed.{LogAgrees}
use sawtooth_pbft.Storage.{Serde, write}
use sawtooth_pbft.Storage.Locations.{AnyStorage, any_read, any_deref_mut, any_drop}
use sawtooth_pbft.Engine.{Update, handle_update, reported, engine_round}
use sawtooth_pbft.Engine.Agreement.{IsAdmitted}
use sawtooth_pbft.Engine.Start.{
  StartupState, StartTimes, default_state, Running, guarded, launch, turn, event_loop,
}
use sawtooth_pbft.Engine.Loop.{node_loop, event_loop-refines}
use sawtooth_pbft.Engine.InMemory.{kept_in_memory, ended, event_loop-memory}
use sawtooth_pbft.Engine.Launched.{first_run, launch-first_run}
use sawtooth_pbft.Engine.Kept.{launched_loop-LogAgrees}
use sawtooth_pbft.Engine.Ending.{HasEnded, event_loop-ends}
use sawtooth_pbft.Examples.Codecs.{test_codec}
use sawtooth_pbft.Examples.Nodes.{test_state, test_node, test_env, test_node-NodeIsValid}
use sawtooth_pbft.Examples.Storages.{Texts, test_files}
use sawtooth_pbft.MessageType.{PbftMessageType}
use sawtooth_pbft.Node.Agreed.{on_peer_message-LogAgrees}
use sawtooth_pbft.Examples.Logs.{test_message}

-- Nothing reads as a seal.
abbrev seal_free_codec : Codec
seal_free_codec = record test_codec { parse_seal = λ b. none }

abbrev loop_env : Env
loop_env = record test_env { codec = seal_free_codec }

abbrev new_test_block : Block
new_test_block = record {
  block_id = 8 ∷ [];
  previous_id = 7 ∷ [];
  signer_id = 1 ∷ [];
  block_num = 5;
  payload = 1 ∷ [];
  summary = [];
}

abbrev test_updates : List Update
test_updates =
    Update.block_new new_test_block
    ∷ Update.peer_message (bare_peer_message (5 ∷ [])) (3 ∷ [])
    ∷ Update.timed_out
    ∷ Update.shutdown
    ∷ []

test_updates-IsAdmitted : All (IsAdmitted loop_env) test_updates
test_updates-IsAdmitted = (λ seal msgs e. cc, (tt, (tt, (tt, tt))))

-- The state has no text: it is only kept in memory.
abbrev no_serde : Serde PbftState
no_serde = record { to_string = λ t. none; from_str = λ s. none }

abbrev test_times : StartTimes
test_times = record { state_time = 0; working_time = 0; backlog_time = 0 }

abbrev test_run : Running Texts
test_run = (first_run loop_env test_times [] default_config test_state).1

launched_loop-LogAgrees_example :
    (event_loop test_files no_serde loop_env (on_peer_message loop_env 2) test_updates test_run
      ≡ ended [] (
          node_loop loop_env
            (on_peer_message loop_env 2)
            test_updates
            test_run.tickers
            test_run.node))
    × LogAgrees
        (node_loop loop_env
          (on_peer_message loop_env 2)
          test_updates
          test_run.tickers
          test_run.node).1.msg_log.messages
launched_loop-LogAgrees_example =
    launched_loop-LogAgrees test_files no_serde loop_env 2 test_times default_config test_state
      test_updates [] test_updates-IsAdmitted

on_peer_message-LogAgrees_example :
    LogAgrees
      (on_peer_message test_env 2
        (test_message PbftMessageType.commit 0 3)
        test_node).1.msg_log.messages
on_peer_message-LogAgrees_example =
    on_peer_message-LogAgrees test_env 2 (test_message PbftMessageType.commit 0 3) test_node
      (record { distinct = test_node-NodeIsValid.distinct; agreed = test_node-NodeIsValid.agreed })

event_loop-memory_example :
    event_loop test_files no_serde loop_env
      (on_peer_message loop_env 2)
      test_updates
      (kept_in_memory test_node test_run.tickers [])
    ≡ ended []
        (node_loop loop_env (on_peer_message loop_env 2) test_updates test_run.tickers test_node)
event_loop-memory_example =
    event_loop-memory test_files no_serde loop_env (on_peer_message loop_env 2) test_updates
      test_node test_run.tickers []

event_loop-ends_example :
    (event_loop test_files no_serde loop_env
        (on_peer_message loop_env 2)
        (test_updates ++ Update.timed_out ∷ [])
        (kept_in_memory test_node test_run.tickers [])
      ≡ event_loop test_files no_serde loop_env
          (on_peer_message loop_env 2)
          test_updates
          (kept_in_memory test_node test_run.tickers []))
    × HasEnded (
        event_loop test_files no_serde loop_env
          (on_peer_message loop_env 2)
          (test_updates ++ Update.timed_out ∷ [])
          (kept_in_memory test_node test_run.tickers []))
event_loop-ends_example =
    event_loop-ends test_files no_serde loop_env (on_peer_message loop_env 2)
      (Update.block_new new_test_block
        ∷ Update.peer_message (bare_peer_message (5 ∷ [])) (3 ∷ [])
        ∷ Update.timed_out
        ∷ [])
      (Update.timed_out ∷ []) Update.shutdown test_node test_run.tickers [] (inl refl)

abbrev stopping : List Update
stopping = Update.peer_connected ∷ Update.shutdown ∷ []

stopped_loop :
    event_loop test_files no_serde loop_env
      (λ m. done)
      (Update.shutdown ∷ [])
      (kept_in_memory test_node test_run.tickers [])
    ≡ ok (false, kept_in_memory test_node test_run.tickers [])
unfolding event_loop turn guarded engine_round handle_update reported write any_read any_deref_mut
    any_drop
stopped_loop = refl

stored_in_memory :
    any_read test_files no_serde (AnyStorage.memory (record { data_of = test_state })) ≡ test_state
unfolding any_read
stored_in_memory = refl

event_loop-refines_example :
    (node_loop loop_env (λ m. done) (Update.shutdown ∷ []) test_run.tickers test_node
      ≡ (ok (false, test_run.tickers), test_node))
    × (any_read test_files no_serde (AnyStorage.memory (record { data_of = test_state }))
        ≡ test_state)
event_loop-refines_example =
    event_loop-refines test_files no_serde loop_env (λ m. done) (Update.shutdown ∷ [])
      (kept_in_memory test_node test_run.tickers []) (kept_in_memory test_node test_run.tickers [])
      false stored_in_memory stopped_loop

-- Four peers, all of which have the ID 2.
abbrev launch_env : Env
launch_env = record loop_env {
  json_strings = λ s. some ("a" ∷ "b" ∷ "c" ∷ "d" ∷ []);
  hex_decode = λ s. some (2 ∷ []);
}

abbrev test_startup : StartupState
test_startup = record {
  chain_head = new_test_block;
  local_peer_id = 2 ∷ [];
  settings = some (λ key. some "peers");
}

launch-first_run_example : launch test_files no_serde launch_env test_startup test_times [] ≡ (
    load_pbft_config launch_env.json_strings launch_env.hex_decode test_startup.settings
    >>= λ config. or_panic (default_state config test_startup 0) >>= λ s.
        ok (first_run launch_env test_times [] config s))
launch-first_run_example =
    launch-first_run test_files no_serde launch_env test_startup test_times []
