-- ===== src/Engine/Launched.antt =====
-- The engine from its start on.
use sawtooth_pbft.Common.{if◌then◌else◌, ℕ, ◌≡◌, refl, ap, ◌∙◌, Option, none, some, [], ◌∷◌}
use sawtooth_pbft.Error.{Outcome, ok, err, panic, out_of_fuel}
use sawtooth_pbft.Config.{PbftConfig}
use sawtooth_pbft.State.{PbftState, is_primary}
use sawtooth_pbft.Service.{Call, Env}
use sawtooth_pbft.Storage.{Serde, Files, write}
use sawtooth_pbft.Storage.Locations.{AnyStorage, get_storage, any_read, any_deref_mut, any_drop}
use sawtooth_pbft.Engine.Start.{
  StartupState, StartTimes, default_state, Running, guarded, expect_loaded, load_state, prepare,
  launch_with, launch,
}
use sawtooth_pbft.Engine.InMemory.{kept_in_memory}
use sawtooth_pbft.Outcome.{◌>>=◌, or_panic}
use sawtooth_pbft.Timing.{new_ticker, TimeoutState, start}
use sawtooth_pbft.Node.Blocks.{restart_timeout}
use sawtooth_pbft.Node.Publish.{new_node, start_faulty_primary_timeout}
use sawtooth_pbft.Storage.Memory.{new_memory}
use sawtooth_pbft.Config.Load.{load_pbft_config}
use sawtooth_pbft.Config.Loaded.{load_pbft_config-ok}
use sawtooth_pbft.Log.{new_log}
use sawtooth_pbft.Node.{PbftNode}

-- The node once the engine has started, written out: a primary has asked for a block, the timer runs
-- since the first reading of the clock, and the log has no message, no backlog and no seal.
abbrev pub first_node : Env → PbftConfig → PbftState → PbftNode
first_node env config s = record {
  state = record s {
    faulty_primary_timeout = record (s.faulty_primary_timeout) {
      state = TimeoutState.active;
      start_time = env.clock 0;
    };
  };
  msg_log = record { messages = []; max_log_size = config.max_log_size; backlog = []; seals = [] };
  calls = if is_primary s then Call.initialize_block none ∷ [] else [];
  readings = 1;
}

-- What the engine runs with once it has its configuration and the state.
abbrev pub first_run :
    {D : Type 0} → Env → StartTimes → D → PbftConfig → PbftState → PbftConfig × Running D
first_run env times d config s = (
  config,
  kept_in_memory (first_node env config s)
      (record {
        working = record { last = times.working_time; timeout = config.block_duration };
        backlog = record { last = times.backlog_time; timeout = config.message_timeout };
      })
      d,
)

module _ {D : Type 0} (files : Files D) (serde : Serde PbftState) where
  load_state-memory :
      (config : PbftConfig) (startup : StartupState) (reading : ℕ) (d : D)
      → config.storage ≡ "memory"
      → load_state files serde config startup reading d ≡ (
          or_panic (default_state config startup reading) >>= λ s.
          ok (AnyStorage.memory (record { data_of = s }), d))
  unfolding load_state get_storage new_memory expect_loaded
  load_state-memory config startup reading d e =
      ap
        (λ location.
          expect_loaded files serde
            (get_storage files serde location (default_state config startup reading) d))
        e
      ∙ kept (default_state config startup reading)
    where
      kept :
          (default : Option PbftState)
          → expect_loaded files serde (get_storage files serde "memory" default d)
            ≡ (or_panic default >>= λ s. ok (AnyStorage.memory (record { data_of = s }), d))
      kept none = refl
      kept (some s) = refl

  prepare-memory :
      (env : Env) (config : PbftConfig) (times : StartTimes) (d : D) (s : PbftState)
      → prepare files serde env config times (AnyStorage.memory (record { data_of = s }), d)
        ≡ ok (first_run env times d config s)
  unfolding prepare guarded write any_read any_deref_mut any_drop start_faulty_primary_timeout
      restart_timeout new_node new_log new_ticker start
  prepare-memory env config times d s = refl

  -- The engine does not reach its loop exactly where its configuration cannot be loaded or its state
  -- cannot be made. Else its loop starts with the state in memory, with the files as they were, with an
  -- empty log, with the timer for the primary running since the first reading of the clock, with the two
  -- tickers set to the configured times, and with one block asked for by a primary and none by a
  -- secondary.
  pub launch-first_run :
      (env : Env) (startup : StartupState) (times : StartTimes) (d : D)
      → launch files serde env startup times d ≡ (
          load_pbft_config env.json_strings env.hex_decode startup.settings >>= λ config.
          or_panic (default_state config startup times.state_time) >>= λ s.
          ok (first_run env times d config s))
  unfolding launch launch_with
  launch-first_run env startup times d =
      loaded_config (load_pbft_config env.json_strings env.hex_decode startup.settings) (λ config e.
        (load_pbft_config-ok env.json_strings env.hex_decode startup.settings config e).2)
    where
      state_made :
          (config : PbftConfig) (s : Option PbftState)
          → ((or_panic s >>= λ s. ok (AnyStorage.memory (record { data_of = s }), d))
              >>= prepare files serde env config times)
            ≡ (or_panic s >>= λ s. ok (first_run env times d config s))
      state_made config none = refl
      state_made config (some s) = prepare-memory env config times d s

      loaded_config :
          (r : Outcome PbftConfig)
          → ((config : PbftConfig) → r ≡ ok config → config.storage ≡ "memory")
          → (r >>= launch_with files serde env startup times d) ≡ (
              r >>= λ config. or_panic (default_state config startup times.state_time) >>= λ s.
              ok (first_run env times d config s))
      loaded_config (ok config) memory =
          ap (λ w. w >>= prepare files serde env config times)
            (load_state-memory config startup times.state_time d (memory config refl))
          ∙ state_made config (default_state config startup times.state_time)
      loaded_config (err e) memory = refl
      loaded_config panic memory = refl
      loaded_config out_of_fuel memory = refl
