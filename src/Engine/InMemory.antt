-- ===== src/Engine/InMemory.antt =====
-- The event loop over a storage in memory, which is the one that `load_pbft_config` asks for.
use sawtooth_pbft.Outcome.{◌>>=◌ as ◌then_do◌}
use sawtooth_pbft.Common.{if◌then◌else◌, ◌≡◌, refl, ap, ◌∙◌, Bool, true, false, List, [], ◌∷◌}
use sawtooth_pbft.Error.{Outcome, ok, err, panic, out_of_fuel}
use sawtooth_pbft.ParsedMessage.{ParsedMessage}
use sawtooth_pbft.State.{PbftState}
use sawtooth_pbft.Service.{Env}
use sawtooth_pbft.Node.{PbftNode, M}
use sawtooth_pbft.Storage.{Serde, Files, write}
use sawtooth_pbft.Storage.Locations.{AnyStorage, any_read, any_deref_mut, any_drop, any_storage}
use sawtooth_pbft.Engine.{Update, Tickers, engine_round}
use sawtooth_pbft.Engine.Start.{Running, turn, event_loop}
use sawtooth_pbft.Node.Keeps.{after}
use sawtooth_pbft.Engine.Loop.{node_loop, next_round, finish, guarded-finish}

-- The variables of `start` when the state is kept in memory.
abbrev pub kept_in_memory : {D : Type 0} → PbftNode → Tickers → D → Running D
kept_in_memory n t d = record {
  node = n;
  tickers = t;
  storage = AnyStorage.memory (record { data_of = n.state });
  disk = d;
}

-- The end of the event loop, from the end of the rounds on the node alone.
unfoldable pub ended :
    {D : Type 0} → D → Outcome (Bool × Tickers) × PbftNode → Outcome (Bool × Running D)
ended d (ok (again, t), n) = ok (again, kept_in_memory n t d)
ended d (err e, n) = err e
ended d (panic, n) = panic
ended d (out_of_fuel, n) = out_of_fuel

module _ {D : Type 0} (files : Files D) (serde : Serde PbftState) (env : Env)
    (send : ParsedMessage → M (Unit {0})) where
  -- What `turn` makes of the end of its guarded round.
  abbrev turned_from : (Bool × Tickers) × (PbftNode × (AnyStorage PbftState × D)) → Bool × Running D
  turned_from g =
      (g.0.0, record { node = g.1.0; tickers = g.0.1; storage = g.1.1.0; disk = g.1.1.1 })

  finish-memory :
      (s : PbftState) (d : D) (r : Outcome (Bool × Tickers) × PbftNode)
      → (finish r (
            write
              (any_storage files serde)
              (λ _. r.1.state)
              (AnyStorage.memory (record { data_of = s }), d))
          then_do λ g. ok (turned_from g))
        ≡ ended d r
  unfolding finish write any_deref_mut any_drop ended
  finish-memory s d (ok a, k) = refl
  finish-memory s d (err e, k) = refl
  finish-memory s d (panic, k) = refl
  finish-memory s d (out_of_fuel, k) = refl

  turn-memory :
      (u : Update) (n : PbftNode) (t : Tickers) (d : D)
      → turn files serde env send u (kept_in_memory n t d) ≡ ended d (engine_round env send u t n)
  unfolding turn any_read
  turn-memory u n t d =
      ap (λ g. g then_do λ g. ok (turned_from g))
        (guarded-finish files serde (engine_round env send u t) n
          (AnyStorage.memory (record { data_of = n.state }), d) refl)
      ∙ finish-memory n.state d (engine_round env send u t n)

  -- With the state in memory the event loop returns, panics or fails as the rounds of the engine on the
  -- node alone do, with the same node and tickers; it leaves the files as they are.
  pub event_loop-memory :
      (us : List Update) (n : PbftNode) (t : Tickers) (d : D)
      → event_loop files serde env send us (kept_in_memory n t d)
        ≡ ended d (node_loop env send us t n)
  unfolding event_loop node_loop next_round ended
  event_loop-memory [] n t d = refl
  event_loop-memory (u ∷ us) n t d =
      ap
        (λ r.
          r then_do λ r. if r.0 then event_loop files serde env send us r.1 else ok (false, r.1))
        (turn-memory u n t d)
      ∙ went_on (engine_round env send u t n) (event_loop-memory us)
    where
      went_on :
          (r : Outcome (Bool × Tickers) × PbftNode)
          → ((k : PbftNode) (t : Tickers) (d : D)
              → event_loop files serde env send us (kept_in_memory k t d)
                ≡ ended d (node_loop env send us t k))
          → (ended d r then_do λ r.
              if r.0 then event_loop files serde env send us r.1 else ok (false, r.1))
            ≡ ended d (after (next_round env send us) r)
      went_on (ok (true, t), k) later = later k t d
      went_on (ok (false, t), k) later = refl
      went_on (err e, k) later = refl
      went_on (panic, k) later = refl
      went_on (out_of_fuel, k) later = refl
