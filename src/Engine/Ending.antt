-- ===== src/Engine/Ending.antt =====
-- When the event loop ends.
use sawtooth_pbft.Common.{
  ◌≡◌, refl, sym, ap, ◌∙◌, subst, ◌⊎◌, inl, inr, Bool, true, false, List, [], ◌∷◌, ◌++◌,
}
use sawtooth_pbft.Error.{Outcome, ok, err, panic, out_of_fuel}
use sawtooth_pbft.ParsedMessage.{ParsedMessage}
use sawtooth_pbft.State.{PbftState}
use sawtooth_pbft.Service.{Env}
use sawtooth_pbft.Node.{PbftNode, M}
use sawtooth_pbft.Storage.{Serde, Files}
use sawtooth_pbft.Engine.{Update, handle_update, reported, Tickers, engine_round}
use sawtooth_pbft.Engine.Start.{event_loop}
use sawtooth_pbft.Node.Keeps.{after}
use sawtooth_pbft.Engine.Loop.{node_loop, next_round, node_loop_step}
use sawtooth_pbft.Engine.InMemory.{kept_in_memory, ended, event_loop-memory}

-- The updates that end the loop.
abbrev pub EndsLoop : Update → Type 0
EndsLoop u = (u ≡ Update.shutdown) ⊎ (u ≡ Update.disconnected)

-- The loop does not wait for another update.
abbrev pub HasEnded : {A : Type 0} → Outcome (Bool × A) → Type 0
HasEnded (ok (again, a)) = again ≡ false
HasEnded _ = Unit {0}

module _ (env : Env) (send : ParsedMessage → M (Unit {0})) where
  engine_round-ends :
      (u : Update) (t : Tickers) (n : PbftNode)
      → EndsLoop u
      → engine_round env send u t n ≡ (ok (false, t), n)
  unfolding engine_round handle_update reported
  engine_round-ends u t n (inl e) = rw e refl
  engine_round-ends u t n (inr e) = rw e refl

  node_loop-ends :
      (us vs : List Update) (u : Update) (t : Tickers) (n : PbftNode)
      → EndsLoop u
      → (node_loop env send (us ++ u ∷ vs) t n ≡ node_loop env send (us ++ u ∷ []) t n)
        × HasEnded (node_loop env send (us ++ u ∷ vs) t n).0
  unfolding node_loop next_round
  node_loop-ends [] vs u t n h =
      let e = engine_round-ends u t n h in
      let last = node_loop_step env send u vs t n n (false, t) e in
      (
        last ∙ sym (node_loop_step env send u [] t n n (false, t) e),
        subst (λ r. HasEnded r.0) (sym last) refl,
      )
  node_loop-ends (v ∷ us) vs u t n h =
      went_on (engine_round env send v t n) (λ t k. node_loop-ends us vs u t k h)
    where
      went_on :
          (r : Outcome (Bool × Tickers) × PbftNode)
          → ((t : Tickers) (k : PbftNode)
              → (node_loop env send (us ++ u ∷ vs) t k ≡ node_loop env send (us ++ u ∷ []) t k)
                × HasEnded (node_loop env send (us ++ u ∷ vs) t k).0)
          → (after (next_round env send (us ++ u ∷ vs)) r
              ≡ after (next_round env send (us ++ u ∷ [])) r)
            × HasEnded (after (next_round env send (us ++ u ∷ vs)) r).0
      went_on (ok (true, t), k) later = later t k
      went_on (ok (false, t), k) later = (refl, refl)
      went_on (err e, k) later = (refl, tt)
      went_on (panic, k) later = (refl, tt)
      went_on (out_of_fuel, k) later = (refl, tt)

-- With the state in memory, the loop is over once the validator has asked for a shutdown or has gone:
-- it does not wait for another update, and what would come in afterwards makes no difference, whatever
-- came before.
pub event_loop-ends :
    {D : Type 0} (files : Files D) (serde : Serde PbftState) (env : Env)
    (send : ParsedMessage → M (Unit {0})) (us vs : List Update) (u : Update) (n : PbftNode)
    (t : Tickers) (d : D)
    → EndsLoop u
    → (event_loop files serde env send (us ++ u ∷ vs) (kept_in_memory n t d)
        ≡ event_loop files serde env send (us ++ u ∷ []) (kept_in_memory n t d))
      × HasEnded (event_loop files serde env send (us ++ u ∷ vs) (kept_in_memory n t d))
unfolding ended
event_loop-ends files serde env send us vs u n t d h =
    let over = node_loop-ends env send us vs u t n h in
    let whole = event_loop-memory files serde env send (us ++ u ∷ vs) n t d in
    let cut = event_loop-memory files serde env send (us ++ u ∷ []) n t d in
    (
      whole ∙ ap (ended d) over.0 ∙ sym cut,
      subst HasEnded (sym whole) (still_over (node_loop env send (us ++ u ∷ vs) t n) over.1),
    )
  where
    still_over : (r : Outcome (Bool × Tickers) × PbftNode) → HasEnded r.0 → HasEnded (ended d r)
    still_over (ok (again, t), k) o = o
    still_over (err e, k) o = tt
    still_over (panic, k) o = tt
    still_over (out_of_fuel, k) o = tt
