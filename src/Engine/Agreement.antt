-- ===== src/Engine/Agreement.antt =====
-- The engine keeps the agreement of the log.
use sawtooth_pbft.Common.{Bytes, ℕ, true, false, not, List}
use sawtooth_pbft.Error.{PbftError, Outcome, ok, err, panic, out_of_fuel}
use sawtooth_pbft.ParsedMessage.{ParsedMessage, from_peer_message}
use sawtooth_pbft.Timing.{Ticker, tick}
use sawtooth_pbft.Service.{Env}
use sawtooth_pbft.Node.{M, pure, done}
use sawtooth_pbft.Node.Broadcast.{propose_view_change}
use sawtooth_pbft.Node.Publish.{try_publish, retry_backlog}
use sawtooth_pbft.Node.Preserves.{
  LogKeeps, pure-LogKeeps, fail-LogKeeps, lift-LogKeeps, >>=-LogKeeps, if-LogKeeps, done-LogKeeps,
  now-LogKeeps, match-LogKeeps, log_rules,
}
use sawtooth_pbft.Handlers.Agreed.{LogAgrees}
use sawtooth_pbft.Node.Unlogged.{try_publish-LogKeeps, check_timeout-LogKeeps}
use sawtooth_pbft.Node.Agreed.{proposal-LogAgrees}
use sawtooth_pbft.Node.Updates.{on_block_commit-LogKeeps}
use sawtooth_pbft.Node.Received.{
  HasNoPrePrepare, on_block_new-LogKeeps, on_block_valid-LogKeeps, retry_backlog-LogKeeps,
}
use sawtooth_pbft.Engine.{
  Update, receive, handle_update, reported, Tickers, work, retry_work, run_callback, run_ticker,
  run_tickers, engine_round,
}

-- The updates under which the agreement is kept: the seal of a new block holds no `PrePrepare`.
abbrev pub IsAdmitted : Env → Update → Type 0
IsAdmitted env (Update.block_new block) = HasNoPrePrepare env block
IsAdmitted env _ = Unit {0}

-- What `reported` makes of an answer.
abbrev pub carried_on : {A : Type 0} → A → Outcome A → M A
carried_on default r n = elim r [
  | ok a ↦ (ok a, n)
  | err e ↦ (ok default, n)
  | panic ↦ (panic, n)
  | out_of_fuel ↦ (out_of_fuel, n)
]

carried_on-LogKeeps :
    {Q : List ParsedMessage → Type 0} {A : Type 0} (default : A) (r : Outcome A)
    → LogKeeps Q (carried_on default r)
carried_on-LogKeeps default (ok a) = pure-LogKeeps a
carried_on-LogKeeps default (err e) = pure-LogKeeps default
carried_on-LogKeeps default panic = lift-LogKeeps panic
carried_on-LogKeeps default out_of_fuel = lift-LogKeeps out_of_fuel

reported-LogKeeps :
    {Q : List ParsedMessage → Type 0} {A : Type 0} (default : A) (m : M A)
    → LogKeeps Q m
    → LogKeeps Q (reported default m)
unfolding reported
reported-LogKeeps default m h =
    match-LogKeeps m (carried_on default) h (carried_on-LogKeeps default)

module _ (env : Env) (send : ParsedMessage → M (Unit {0}))
    (safe : (msg : ParsedMessage) → LogKeeps LogAgrees (send msg)) where
  receive-LogKeeps :
      (msg : ParsedMessage) (sender : Bytes) → LogKeeps LogAgrees (receive env send msg sender)
  unfolding receive
  receive-LogKeeps msg sender = search (log_rules, safe) depth 12

  handle_update-LogKeeps :
      (u : Update) → IsAdmitted env u → LogKeeps LogAgrees (handle_update env send u)
  unfolding handle_update
  handle_update-LogKeeps (Update.block_new block) a =
      >>=-LogKeeps (on_block_new-LogKeeps env send safe block a) (λ _. pure-LogKeeps true)
  handle_update-LogKeeps (Update.block_valid id) a =
      >>=-LogKeeps (on_block_valid-LogKeeps env send safe id) (λ _. pure-LogKeeps true)
  handle_update-LogKeeps (Update.block_invalid id) a =
      >>=-LogKeeps (proposal-LogAgrees env send safe) (λ _. pure-LogKeeps true)
  handle_update-LogKeeps (Update.block_commit id) a =
      >>=-LogKeeps (on_block_commit-LogKeeps env id) (λ _. pure-LogKeeps true)
  handle_update-LogKeeps (Update.peer_message m sender) a =
      >>=-LogKeeps (lift-LogKeeps (from_peer_message env.codec m false))
        (λ msg. receive-LogKeeps msg sender)
  handle_update-LogKeeps Update.peer_connected a = pure-LogKeeps true
  handle_update-LogKeeps (Update.peer_disconnected id) a = pure-LogKeeps true
  handle_update-LogKeeps Update.shutdown a = pure-LogKeeps false
  handle_update-LogKeeps Update.timed_out a = fail-LogKeeps PbftError.timeout
  handle_update-LogKeeps Update.disconnected a = pure-LogKeeps false

  work-LogKeeps : LogKeeps LogAgrees (work env send)
  unfolding work
  work-LogKeeps =
      >>=-LogKeeps (reported-LogKeeps tt (try_publish env) (try_publish-LogKeeps env)) (λ _.
        >>=-LogKeeps (check_timeout-LogKeeps env) (λ expired.
          if-LogKeeps expired (reported tt (propose_view_change env send)) done
            (reported-LogKeeps tt (propose_view_change env send) (proposal-LogAgrees env send safe))
            done-LogKeeps))

  retry_work-LogKeeps : LogKeeps LogAgrees (retry_work env send)
  unfolding retry_work
  retry_work-LogKeeps =
      reported-LogKeeps tt (retry_backlog send) (retry_backlog-LogKeeps env send safe)

  run_callback-LogKeeps :
      (t : Ticker) (before : ℕ) (callback : M (Unit {0}))
      → LogKeeps LogAgrees callback
      → LogKeeps LogAgrees (run_callback env send t before callback)
  unfolding run_callback
  run_callback-LogKeeps t before callback h =
      >>=-LogKeeps h
        (λ _. >>=-LogKeeps (now-LogKeeps env) (λ after. pure-LogKeeps (tick before after t).1))

  run_ticker-LogKeeps :
      (t : Ticker) (callback : M (Unit {0}))
      → LogKeeps LogAgrees callback
      → LogKeeps LogAgrees (run_ticker env send t callback)
  unfolding run_ticker
  run_ticker-LogKeeps t callback h = >>=-LogKeeps (now-LogKeeps env) (λ before.
      if-LogKeeps (tick before before t).0 (run_callback env send t before callback) (pure t)
        (run_callback-LogKeeps t before callback h) (pure-LogKeeps t))

  run_tickers-LogKeeps : (t : Tickers) → LogKeeps LogAgrees (run_tickers env send t)
  unfolding run_tickers
  run_tickers-LogKeeps t =
      >>=-LogKeeps (run_ticker-LogKeeps t.working (work env send) work-LogKeeps) (λ working.
        >>=-LogKeeps (run_ticker-LogKeeps t.backlog (retry_work env send) retry_work-LogKeeps)
          (λ backlog. pure-LogKeeps (true, record { working = working; backlog = backlog })))

  pub engine_round-LogKeeps :
      (u : Update) (t : Tickers) → IsAdmitted env u → LogKeeps LogAgrees (engine_round env send u t)
  unfolding engine_round
  engine_round-LogKeeps u t a =
      >>=-LogKeeps (reported-LogKeeps true (handle_update env send u) (handle_update-LogKeeps u a))
        (λ again.
          if-LogKeeps (not again) (pure (false, t)) (run_tickers env send t)
            (pure-LogKeeps (false, t)) (run_tickers-LogKeeps t))
