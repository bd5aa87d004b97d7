-- ===== src/Engine/Loop.antt =====
-- The event loop of `start`: what the storage adds to the rounds of the engine, and when it ends.
use sawtooth_pbft.Outcome.{◌>>=◌ as ◌then_do◌}
use sawtooth_pbft.Common.{
  if◌then◌else◌, ◌≡◌, refl, sym, ap, ◌∙◌, subst, Bool, true, false, List, [], ◌∷◌,
}
use sawtooth_pbft.Error.{Outcome, ok, err, panic, out_of_fuel}
use sawtooth_pbft.ParsedMessage.{ParsedMessage}
use sawtooth_pbft.State.{PbftState}
use sawtooth_pbft.Service.{Env}
use sawtooth_pbft.Node.{PbftNode, M, ◌>>=◌, pure}
use sawtooth_pbft.Storage.{Serde, Files, write}
use sawtooth_pbft.Storage.Locations.{AnyStorage, any_storage, any_storage-IsStorage}
use sawtooth_pbft.Engine.{Update, Tickers, engine_round}
use sawtooth_pbft.Engine.Start.{Running, guarded, turn, event_loop}
use sawtooth_pbft.Node.Keeps.{after}

-- The rounds of the engine, one after the other, on a node that holds its state itself.
unfoldable pub node_loop :
    Env → (ParsedMessage → M (Unit {0})) → List Update → Tickers → M (Bool × Tickers)
node_loop env send [] t = pure (true, t)
node_loop env send (u ∷ us) t =
    engine_round env send u t >>= λ r. if r.0 then node_loop env send us r.1 else pure r

-- How a round goes on.
unfoldable pub next_round :
    Env → (ParsedMessage → M (Unit {0})) → List Update → Bool × Tickers → M (Bool × Tickers)
next_round env send us r = if r.0 then node_loop env send us r.1 else pure r

pub node_loop_step :
    (env : Env) (send : ParsedMessage → M (Unit {0})) (u : Update) (us : List Update) (t : Tickers)
    (n k : PbftNode) (r : Bool × Tickers)
    → engine_round env send u t n ≡ (ok r, k)
    → node_loop env send (u ∷ us) t n ≡ next_round env send us r k
unfolding node_loop next_round
node_loop_step env send u us t n k r e = ap (after (next_round env send us)) e

-- The end of a guarded call, from what the call and the drop of its guard answer.
unfoldable pub finish :
    {A W : Type 0} → Outcome A × PbftNode → Bool × W → Outcome (A × (PbftNode × W))
finish (ok a, n) (true, w) = ok (a, (n, w))
finish (ok a, n) (false, w) = panic
finish (err e, n) x = err e
finish (panic, n) x = panic
finish (out_of_fuel, n) x = out_of_fuel

finished :
    {A W : Type 0} (r : Outcome A × PbftNode) (x : Bool × W)
    → (r.0 then_do λ a. if x.0 then ok (a, (r.1, x.1)) else panic) ≡ finish r x
unfolding finish
finished (ok a, n) (true, w) = refl
finished (ok a, n) (false, w) = refl
finished (err e, n) x = refl
finished (panic, n) x = refl
finished (out_of_fuel, n) x = refl

finish-ok :
    {A W : Type 0} (r : Outcome A × PbftNode) (x : Bool × W) (a : A) (n : PbftNode) (w : W)
    → finish r x ≡ ok (a, (n, w))
    → (r ≡ (ok a, n)) × (x.1 ≡ w)
unfolding finish
finish-ok (ok b, k) (true, v) a n w h = (cc, cc)
finish-ok (ok b, k) (false, v) a n w h = cc
finish-ok (err e, k) x a n w h = cc
finish-ok (panic, k) x a n w h = cc
finish-ok (out_of_fuel, k) x a n w h = cc

module _ {D : Type 0} (files : Files D) (serde : Serde PbftState) where
  -- A call under a write guard that returns has changed the state in the storage as it has changed
  -- the node's.
  pub guarded-finish :
      {A : Type 0} (m : M A) (n : PbftNode) (w : AnyStorage PbftState × D)
      → (any_storage files serde).read w.0 ≡ n.state
      → guarded files serde m (n, w)
        ≡ finish (m n) (write (any_storage files serde) (λ _. (m n).1.state) w)
  unfolding guarded
  guarded-finish m n w same =
      let k = record n { state = (any_storage files serde).read w.0 } in
      subst
        (λ j.
          guarded files serde m (n, w)
          ≡ finish (m j) (write (any_storage files serde) (λ _. (m j).1.state) w))
        (ap (λ s. record n { state = s }) same)
        (finished (m k) (write (any_storage files serde) (λ _. (m k).1.state) w))

  guarded-ok :
      {A : Type 0} (m : M A) (n n' : PbftNode) (w w' : AnyStorage PbftState × D) (a : A)
      → (any_storage files serde).read w.0 ≡ n.state
      → guarded files serde m (n, w) ≡ ok (a, (n', w'))
      → (m n ≡ (ok a, n')) × ((any_storage files serde).read w'.0 ≡ n'.state)
  unfolding guarded
  guarded-ok m n n' w w' a same h =
      let (called, changed) = finish-ok (m n) _ a n' w' (sym (guarded-finish m n w same) ∙ h) in
      (
        called,
        ap (λ v. (any_storage files serde).read v.0) (sym changed)
            ∙ any_storage-IsStorage files serde (λ _. (m n).1.state) w.0
            ∙ ap (λ r. r.1.state) called,
      )

  module _ (env : Env) (send : ParsedMessage → M (Unit {0})) where
    -- The state in the storage is the node's.
    abbrev pub IsStored : Running D → Type 0
    IsStored run = (any_storage files serde).read run.storage ≡ run.node.state

    -- What a result of the loop says of the same steps on the node alone.
    abbrev Matches : Outcome (Bool × Tickers) × PbftNode → Outcome (Bool × Running D) → Type 0
    Matches r (ok (again, run)) = (r ≡ (ok (again, run.tickers), run.node)) × IsStored run
    Matches r (err e) = Unit {0}
    Matches r panic = Unit {0}
    Matches r out_of_fuel = Unit {0}

    turn-Matches :
        (u : Update) (run : Running D)
        → IsStored run
        → Matches (engine_round env send u run.tickers run.node) (turn files serde env send u run)
    unfolding turn
    turn-Matches u run same =
        guarded_cases
          (guarded files serde (engine_round env send u run.tickers)
            (run.node, (run.storage, run.disk)))
          refl
      where
        guarded_cases :
            (g : Outcome ((Bool × Tickers) × (PbftNode × (AnyStorage PbftState × D))))
            → guarded files serde
                (engine_round env send u run.tickers)
                (run.node, (run.storage, run.disk))
              ≡ g
            → Matches (engine_round env send u run.tickers run.node) (
                g then_do λ turned. ok (
                  turned.0.0,
                  record {
                    node = turned.1.0;
                    tickers = turned.0.1;
                    storage = turned.1.1.0;
                    disk = turned.1.1.1;
                  },
                ))
        guarded_cases (ok (a, (n, w))) e =
            guarded-ok (engine_round env send u run.tickers) run.node n (run.storage, run.disk) w a
              same e
        guarded_cases (err e) h = tt
        guarded_cases panic h = tt
        guarded_cases out_of_fuel h = tt

    event_loop-Matches :
        (us : List Update) (run : Running D)
        → IsStored run
        → Matches
            (node_loop env send us run.tickers run.node)
            (event_loop files serde env send us run)
    unfolding event_loop node_loop next_round
    event_loop-Matches [] run same = (refl, same)
    event_loop-Matches (u ∷ us) run same =
        first_turn (turn files serde env send u run) (turn-Matches u run same)
          (event_loop-Matches us)
      where
        first_turn :
            (r : Outcome (Bool × Running D))
            → Matches (engine_round env send u run.tickers run.node) r
            → ((next : Running D)
                → IsStored next
                → Matches
                    (node_loop env send us next.tickers next.node)
                    (event_loop files serde env send us next))
            → Matches (node_loop env send (u ∷ us) run.tickers run.node) (
                r then_do λ r.
                if r.0 then event_loop files serde env send us r.1 else ok (false, r.1))
        first_turn (ok (true, next)) (e, stored) later =
            subst (λ x. Matches x (event_loop files serde env send us next))
              (sym (
                node_loop_step env send u us run.tickers run.node next.node (true, next.tickers) e))
              (later next stored)
        first_turn (ok (false, next)) (e, stored) later = (
          node_loop_step env send u us run.tickers run.node next.node (false, next.tickers) e,
          stored,
        )
        first_turn (err e) h later = tt
        first_turn panic h later = tt
        first_turn out_of_fuel h later = tt

    -- The event loop over the storage refines the rounds of the engine on a node that holds its state
    -- itself: where the loop returns, the rounds alone return the same answer, with the same node and the
    -- same tickers, and the storage holds the node's state. It is so for the storage in memory and on disk,
    -- if the storage held the node's state before.
    pub event_loop-refines :
        (us : List Update) (run run' : Running D) (again : Bool)
        → IsStored run
        → event_loop files serde env send us run ≡ ok (again, run')
        → (node_loop env send us run.tickers run.node ≡ (ok (again, run'.tickers), run'.node))
          × IsStored run'
    event_loop-refines us run run' again same h =
        subst (Matches (node_loop env send us run.tickers run.node)) h
          (event_loop-Matches us run same)
