-- ===== src/Engine/Stalled.antt =====
-- The rounds of the loop without an update, while a view change goes on.
use sawtooth_pbft.Common.{
  if◌then◌else◌, ℕ, zero, suc, ◌≡◌, refl, sym, ap, ◌∙◌, subst, inr, Bool, true, false, List, [],
  ◌∷◌,
}
use sawtooth_pbft.Error.{ok}
use sawtooth_pbft.ParsedMessage.{ParsedMessage}
use sawtooth_pbft.Timing.{Ticker, tick}
use sawtooth_pbft.State.{PbftMode, is_primary}
use sawtooth_pbft.Log.{pop_backlog}
use sawtooth_pbft.Service.{Call, Env}
use sawtooth_pbft.Node.{PbftNode, M, ◌>>=◌, pure, now}
use sawtooth_pbft.Node.Keeps.{after}
use sawtooth_pbft.Node.Publish.{retry, retry_backlog}
use sawtooth_pbft.Engine.{
  Update, handle_update, reported, Tickers, work, retry_work, run_callback, run_ticker, run_tickers,
  engine_round,
}
use sawtooth_pbft.Engine.Loop.{node_loop}
use sawtooth_pbft.Engine.Watch.{looked, work-waits}

-- A secondary that is changing its view, has nothing in its backlog, and has made the calls `cs`.
record IsStalled (cs : List Call) (n : PbftNode) : Type 0 where
  is_secondary : is_primary n.state ≡ false
  is_changing : n.state.mode ≡ PbftMode.view_changing
  no_backlog : n.msg_log.backlog ≡ []
  same_calls : n.calls ≡ cs

-- A method that succeeds on such a node, with an answer that `Q` holds of, and leaves it such a node.
record StaysStalled (cs : List Call) {A : Type 0} (Q : A → Type 0) (m : M A) : Type 0 where
  at :
      (n : PbftNode)
      → IsStalled cs n
      → (a : A) × (k : PbftNode) × (m n ≡ (ok a, k)) × Q a × IsStalled cs k

abbrev Any : {A : Type 0} → A → Type 0
Any a = Unit {0}

-- Rounds that receive nothing.
pub timeouts : ℕ → List Update
timeouts zero = []
timeouts (suc i) = Update.timed_out ∷ timeouts i

module _ {cs : List Call} where
  pure-StaysStalled : {A : Type 0} (Q : A → Type 0) (a : A) → Q a → StaysStalled cs Q (pure a)
  pure-StaysStalled Q a q = record { at = λ n s. (a, n, refl, q, s) }

  >>=-StaysStalled :
      {A B : Type 0} {Q : A → Type 0} {R : B → Type 0} {m : M A} {f : A → M B}
      → StaysStalled cs Q m
      → ((a : A) → Q a → StaysStalled cs R (f a))
      → StaysStalled cs R (m >>= f)
  >>=-StaysStalled {f = f} h g = record {
    at = λ n s.
        let (a, k, e, q, s') = h.at n s in
        let (b, j, d, r, s'') = (g a q).at k s' in (b, j, ap (after f) e ∙ d, r, s'');
  }

  if-StaysStalled :
      {A : Type 0} {Q : A → Type 0} (b : Bool) (m k : M A)
      → StaysStalled cs Q m
      → StaysStalled cs Q k
      → StaysStalled cs Q (if b then m else k)
  if-StaysStalled true m k h g = h
  if-StaysStalled false m k h g = g

  now-StaysStalled : (env : Env) → StaysStalled cs Any (now env)
  now-StaysStalled env = record {
    at = λ n s. (
      env.clock n.readings,
      record n { readings = suc n.readings },
      refl,
      tt,
      record {
        is_secondary = s.is_secondary;
        is_changing = s.is_changing;
        no_backlog = s.no_backlog;
        same_calls = s.same_calls;
      },
    );
  }

-- The loop goes on.
abbrev GoesOn : Bool × Tickers → Type 0
GoesOn r = r.0 ≡ true

module _ (env : Env) (send : ParsedMessage → M (Unit {0})) where
  retry_work-waits :
      (n : PbftNode)
      → n.msg_log.backlog ≡ []
      → retry_work env send n ≡ (ok tt, record n { msg_log = record n.msg_log { backlog = [] } })
  unfolding retry_work reported retry_backlog retry pop_backlog
  retry_work-waits n e = rw e refl

module _ (env : Env) (send : ParsedMessage → M (Unit {0})) {cs : List Call} where
  work-StaysStalled : StaysStalled cs Any (work env send)
  work-StaysStalled = record {
    at = λ n s. (
      tt,
      looked env n,
      work-waits env send n s.is_secondary (inr s.is_changing),
      tt,
      record {
        is_secondary = s.is_secondary;
        is_changing = s.is_changing;
        no_backlog = s.no_backlog;
        same_calls = s.same_calls;
      },
    );
  }

  retry_work-StaysStalled : StaysStalled cs Any (retry_work env send)
  retry_work-StaysStalled = record {
    at = λ n s. (
      tt,
      record n { msg_log = record n.msg_log { backlog = [] } },
      retry_work-waits env send n s.no_backlog,
      tt,
      record {
        is_secondary = s.is_secondary;
        is_changing = s.is_changing;
        no_backlog = refl;
        same_calls = s.same_calls;
      },
    );
  }

  run_ticker-StaysStalled :
      (t : Ticker) (callback : M (Unit {0}))
      → StaysStalled cs Any callback
      → StaysStalled cs Any (run_ticker env send t callback)
  unfolding run_ticker run_callback
  run_ticker-StaysStalled t callback h = >>=-StaysStalled (now-StaysStalled env) (λ before _.
      if-StaysStalled (tick before before t).0 (run_callback env send t before callback) (pure t)
        (>>=-StaysStalled h (λ _ _.
          >>=-StaysStalled (now-StaysStalled env)
            (λ later _. pure-StaysStalled Any (tick before later t).1 tt)))
        (pure-StaysStalled Any t tt))

  run_tickers-StaysStalled : (t : Tickers) → StaysStalled cs GoesOn (run_tickers env send t)
  unfolding run_tickers
  run_tickers-StaysStalled t =
      >>=-StaysStalled (run_ticker-StaysStalled t.working (work env send) work-StaysStalled)
        (λ working _.
          >>=-StaysStalled
            (run_ticker-StaysStalled t.backlog (retry_work env send) retry_work-StaysStalled)
            (λ backlog _.
              pure-StaysStalled GoesOn (true, record { working = working; backlog = backlog })
                refl))

  engine_round-StaysStalled :
      (t : Tickers) → StaysStalled cs GoesOn (engine_round env send Update.timed_out t)
  unfolding engine_round reported handle_update
  engine_round-StaysStalled t = record { at = λ n s. (run_tickers-StaysStalled t).at n s }

  node_loop-StaysStalled :
      (i : ℕ) (t : Tickers) → StaysStalled cs GoesOn (node_loop env send (timeouts i) t)
  unfolding node_loop timeouts
  node_loop-StaysStalled zero t = pure-StaysStalled GoesOn (true, t) refl
  node_loop-StaysStalled (suc i) t = >>=-StaysStalled (engine_round-StaysStalled t) (λ r on.
      subst
        (λ b. StaysStalled cs GoesOn (if b then node_loop env send (timeouts i) r.1 else pure r))
        (sym on) (node_loop-StaysStalled i r.1))

-- A secondary that is changing its view, and has no message in its backlog, never gets out of the
-- change by itself: after any number of rounds of the loop that receive no update, whatever the clock
-- and the tickers say, the loop goes on, the node is still changing its view, and it has made no call,
-- so that it has neither proposed another view nor sent anything else.
pub node_loop-stalled :
    (env : Env) (send : ParsedMessage → M (Unit {0})) (i : ℕ) (t : Tickers) (n : PbftNode)
    → is_primary n.state ≡ false
    → n.state.mode ≡ PbftMode.view_changing
    → n.msg_log.backlog ≡ []
    → (later : Tickers) × (k : PbftNode) × (node_loop env send (timeouts i) t n
        ≡ (ok (true, later), k))
      × (k.state.mode ≡ PbftMode.view_changing)
      × (k.calls ≡ n.calls)
node_loop-stalled env send i t n secondary changing empty =
    let (r, k, e, on, s) = (node_loop-StaysStalled env send {cs = n.calls} i t).at n (record {
      is_secondary = secondary;
      is_changing = changing;
      no_backlog = empty;
      same_calls = refl;
    }) in
    (r.1, k, e ∙ ap (λ b. (ok (b, r.1), k)) on, s.is_changing, s.same_calls)
