-- ===== src/Engine/Start.antt =====
-- src/engine.rs: `start`, its set-up and its event loop. `sdk`'s channel of updates is the list of what
-- `recv_timeout` gives, one after the other.
use sawtooth_pbft.Common.{
  if◌then◌else◌, Bytes, ℕ, Bool, true, false, Option, none, some, List, [], ◌∷◌,
}
use sawtooth_pbft.Protos.{Block}
use sawtooth_pbft.Error.{Outcome, ok, err, panic, out_of_fuel}
use sawtooth_pbft.ParsedMessage.{ParsedMessage}
use sawtooth_pbft.Timing.{new_ticker}
use sawtooth_pbft.Config.{PbftConfig, Settings}
use sawtooth_pbft.Config.Load.{load_pbft_config}
use sawtooth_pbft.State.{PbftState, new_state}
use sawtooth_pbft.Service.{Env}
use sawtooth_pbft.Node.{PbftNode, M}
use sawtooth_pbft.Node.Publish.{new_node, start_faulty_primary_timeout}
use sawtooth_pbft.Storage.{Serde, Files, Loading, write}
use sawtooth_pbft.Storage.Locations.{AnyStorage, get_storage, any_storage}
use sawtooth_pbft.Engine.{Update, Tickers, engine_round}
use sawtooth_pbft.Outcome.{◌>>=◌}

-- What `start` is told, beside the peers, which it leaves alone, and the settings at the chain head,
-- `none` where the validator failed to give them.
pub record StartupState : Type 0 where
  pub chain_head : Block
  pub local_peer_id : Bytes
  pub settings : Option Settings

-- The readings of the clock before there is a node.
pub record StartTimes : Type 0 where
  pub state_time : ℕ
  pub working_time : ℕ
  pub backlog_time : ℕ

-- The default that `get_storage` is given: `PbftState::new`, which may panic.
unfoldable pub default_state : PbftConfig → StartupState → ℕ → Option PbftState
unfolding new_state
default_state config startup reading =
    elim (new_state startup.local_peer_id startup.chain_head.block_num config reading) [
      | ok s ↦ some s
      | err e ↦ none
      | panic ↦ none
      | out_of_fuel ↦ none
    ]

-- The variables of `start`. The state of the node is the one in the storage; the copy in `node` is
-- read from there.
pub record Running (D : Type 0) : Type 0 where
  pub node : PbftNode
  pub tickers : Tickers
  pub storage : AnyStorage PbftState
  pub disk : D

module _ {D : Type 0} (files : Files D) (serde : Serde PbftState) where
  -- The use of `pbft_state.write()` around a call: the call changes the state in the storage, and the
  -- guard is dropped afterwards.
  unfoldable pub guarded :
      {A : Type 0}
      → M A
      → PbftNode × (AnyStorage PbftState × D)
      → Outcome (A × (PbftNode × (AnyStorage PbftState × D)))
  unfolding write
  guarded m (n, w) =
      let (r, n') = m (record n { state = (any_storage files serde).read w.0 }) in
      let (there, w') = write (any_storage files serde) (λ _. n'.state) w in
      r >>= λ a. if there then ok (a, (n', w')) else panic

  -- `expect` of what `get_storage` gives.
  unfoldable pub expect_loaded :
      Loading (AnyStorage PbftState) × D → Outcome (AnyStorage PbftState × D)
  expect_loaded (Loading.loaded st, d) = ok (st, d)
  expect_loaded (Loading.refused e, d) = panic
  expect_loaded (Loading.panicked, d) = panic

  unfoldable pub load_state : PbftConfig → StartupState → ℕ → D → Outcome (AnyStorage PbftState × D)
  unfolding get_storage default_state expect_loaded
  load_state config startup reading d =
      expect_loaded
        (get_storage files serde config.storage (default_state config startup reading) d)

  -- `start` up to its loop, with a storage.
  unfoldable pub prepare :
      Env → PbftConfig → StartTimes → AnyStorage PbftState × D → Outcome (PbftConfig × Running D)
  unfolding guarded new_node new_ticker start_faulty_primary_timeout
  prepare env config times w = do
    let state = (any_storage files serde).read w.0
    let tickers : Tickers = record {
      working = new_ticker config.block_duration times.working_time;
      backlog = new_ticker config.message_timeout times.backlog_time;
    }
    started ← guarded (start_faulty_primary_timeout env) (new_node env config state, w)
    ok (
      config,
      record {
        node = started.1.0;
        tickers = tickers;
        storage = started.1.1.0;
        disk = started.1.1.1;
      },
    )

  unfoldable pub launch_with :
      Env → StartupState → StartTimes → D → PbftConfig → Outcome (PbftConfig × Running D)
  unfolding load_state prepare
  launch_with env startup times d config = do
    w ← load_state config startup times.state_time d
    prepare env config times w

  unfoldable pub launch : Env → StartupState → StartTimes → D → Outcome (PbftConfig × Running D)
  unfolding launch_with load_pbft_config
  launch env startup times d = do
    config ← load_pbft_config env.json_strings env.hex_decode startup.settings
    launch_with env startup times d config

  module _ (env : Env) (send : ParsedMessage → M (Unit {0})) where
    -- One turn of the loop, and whether it was the last.
    unfoldable pub turn : Update → Running D → Outcome (Bool × Running D)
    unfolding guarded engine_round
    turn u run = do
      turned ← guarded (engine_round env send u run.tickers) (run.node, (run.storage, run.disk))
      ok (
        turned.0.0,
        record {
          node = turned.1.0;
          tickers = turned.0.1;
          storage = turned.1.1.0;
          disk = turned.1.1.1;
        },
      )

    -- The loop over the updates that come in; `true` while it waits for the next.
    unfoldable pub event_loop : List Update → Running D → Outcome (Bool × Running D)
    unfolding turn
    event_loop [] run = ok (true, run)
    event_loop (u ∷ us) run = turn u run >>= λ r. if r.0 then event_loop us r.1 else ok (false, r.1)
