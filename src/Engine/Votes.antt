-- ===== src/Engine/Votes.antt =====
-- When a round of the engine's loop sends a vote to commit.
use sawtooth_pbft.Common.{
  if◌then◌else◌, Bytes, ℕ, ◌≡◌, refl, sym, ◌∙◌, subst, ◌⊎◌, inl, inr, Bool, true, false, not,
  Option, none, some,
}
use sawtooth_pbft.Error.{Outcome, ok, err, panic, out_of_fuel}
use sawtooth_pbft.ParsedMessage.{ParsedMessage, from_peer_message}
use sawtooth_pbft.Timing.{Ticker, tick}
use sawtooth_pbft.Log.{pop_backlog}
use sawtooth_pbft.Service.{Env}
use sawtooth_pbft.Node.{PbftNode, M, pure, done}
use sawtooth_pbft.Node.Keeps.{after, after-Keeps}
use sawtooth_pbft.Node.Peer.{on_peer_message}
use sawtooth_pbft.Node.Blocks.{on_block_valid}
use sawtooth_pbft.Node.Publish.{try_publish, retry, retry_backlog}
use sawtooth_pbft.Node.Voting.{
  commit_votes, SendsNoVote, pure-SendsNoVote, lift-SendsNoVote, reads_log-SendsNoVote,
  >>=-SendsNoVote, if-SendsNoVote, match-SendsNoVote, done-SendsNoVote, modify_log-SendsNoVote,
  now-SendsNoVote, vote_rules,
}
use sawtooth_pbft.Node.Voted.{propose_view_change-SendsNoVote, on_peer_message-SendsNoVote}
use sawtooth_pbft.Node.Unvoted.{
  on_block_commit-SendsNoVote, on_block_new-SendsNoVote, try_publish-SendsNoVote,
  check_timeout-SendsNoVote,
}
use sawtooth_pbft.Node.Casts.{CastsVote, on_block_valid-VotesOnce}
use sawtooth_pbft.Engine.{
  Update, receive, handle_update, reported, Tickers, work, retry_work, run_callback, run_ticker,
  run_tickers, engine_round,
}
use sawtooth_pbft.Engine.Agreement.{carried_on}
use sawtooth_pbft.Node.Broadcast.{propose_view_change}

-- A round that sends no vote, or the one of a notice that a block is valid.
abbrev pub VotesOnce : Env → Update → PbftNode → PbftNode → Type 0
VotesOnce env u n k =
    (commit_votes k.calls ≡ commit_votes n.calls)
    ⊎ ((id : Bytes) × (u ≡ Update.block_valid id) × CastsVote env id n k)

module _ (env : Env) (u : Update) where
  -- The vote of a step stands after any that sends none.
  before-VotesOnce :
      {n k j : PbftNode}
      → VotesOnce env u n k
      → commit_votes j.calls ≡ commit_votes k.calls
      → VotesOnce env u n j
  before-VotesOnce (inl same) e = inl (e ∙ same)
  before-VotesOnce (inr (id, at_notice, cast)) e = inr (
    id,
    at_notice,
    record {
      block = cast.block;
      is_noticed = cast.is_noticed;
      is_working = cast.is_working;
      in_phase = cast.in_phase;
      one_vote = e ∙ cast.one_vote;
    },
  )

reported-SendsNoVote :
    {A : Type 0} (default : A) (m : M A) → SendsNoVote m → SendsNoVote (reported default m)
unfolding reported
reported-SendsNoVote {A = A} default m h = match-SendsNoVote m (carried_on default) h carries_on
  where
    carries_on : (r : Outcome A) → SendsNoVote (carried_on default r)
    carries_on (ok a) = pure-SendsNoVote a
    carries_on (err e) = pure-SendsNoVote default
    carries_on panic = lift-SendsNoVote panic
    carries_on out_of_fuel = lift-SendsNoVote out_of_fuel

-- Whatever is made of its answer.
reported-same :
    {A : Type 0} (default : A) (m : M A) (n : PbftNode) → (reported default m n).1 ≡ (m n).1
unfolding reported
reported-same {A = A} default m n = go (m n).0 (m n).1
  where
    go : (r : Outcome A) (k : PbftNode) → (carried_on default r k).1 ≡ k
    go (ok a) k = refl
    go (err e) k = refl
    go panic k = refl
    go out_of_fuel k = refl

module _ (env : Env) (send : ParsedMessage → M (Unit {0}))
    (safe : (msg : ParsedMessage) → SendsNoVote (send msg)) where
  handle_update-VotesOnce :
      (u : Update) (n : PbftNode) → VotesOnce env u n (handle_update env send u n).1
  unfolding handle_update receive
  handle_update-VotesOnce (Update.block_new block) n = inl (
      (>>=-SendsNoVote (on_block_new-SendsNoVote env send safe block)
          (λ _. pure-SendsNoVote true)).at
        n)
  handle_update-VotesOnce (Update.block_valid id) n =
      subst (VotesOnce env (Update.block_valid id) n)
        (sym (then_true (on_block_valid env send id n).0 (on_block_valid env send id n).1))
        (elim (on_block_valid-VotesOnce env send safe id n) [
          | inl same ↦ inl same
          | inr cast ↦ inr (id, refl, cast)
        ])
    where
      then_true : (r : Outcome (Unit {0})) (k : PbftNode) → (after (λ _. pure true) (r, k)).1 ≡ k
      then_true (ok a) k = refl
      then_true (err e) k = refl
      then_true panic k = refl
      then_true out_of_fuel k = refl
  handle_update-VotesOnce (Update.block_invalid id) n = inl (
      (>>=-SendsNoVote (propose_view_change-SendsNoVote env send safe)
          (λ _. pure-SendsNoVote true)).at
        n)
  handle_update-VotesOnce (Update.block_commit id) n =
      inl ((>>=-SendsNoVote (on_block_commit-SendsNoVote env id) (λ _. pure-SendsNoVote true)).at n)
  handle_update-VotesOnce (Update.peer_message m sender) n = inl (
      (>>=-SendsNoVote (lift-SendsNoVote (from_peer_message env.codec m false))
          (λ msg. received msg)).at
        n)
    where
      received : (msg : ParsedMessage) → SendsNoVote (receive env send msg sender)
      received msg = search (vote_rules, safe) depth 12
  handle_update-VotesOnce Update.peer_connected n = inl refl
  handle_update-VotesOnce (Update.peer_disconnected id) n = inl refl
  handle_update-VotesOnce Update.shutdown n = inl refl
  handle_update-VotesOnce Update.timed_out n = inl refl
  handle_update-VotesOnce Update.disconnected n = inl refl

  work-SendsNoVote : SendsNoVote (work env send)
  unfolding work
  work-SendsNoVote =
      >>=-SendsNoVote (reported-SendsNoVote tt (try_publish env) (try_publish-SendsNoVote env))
        (λ _. >>=-SendsNoVote (check_timeout-SendsNoVote env) (λ expired.
          if-SendsNoVote expired (reported tt (propose_view_change env send)) done
            (reported-SendsNoVote tt (propose_view_change env send)
              (propose_view_change-SendsNoVote env send safe))
            done-SendsNoVote))

  retry_work-SendsNoVote : SendsNoVote (retry_work env send)
  unfolding retry_work retry_backlog retry
  retry_work-SendsNoVote = reported-SendsNoVote tt (retry_backlog send) (
      >>=-SendsNoVote (reads_log-SendsNoVote (λ log. (pop_backlog log).0)) (λ popped.
        >>=-SendsNoVote (modify_log-SendsNoVote (λ log. (pop_backlog log).1))
          (λ _. retried popped)))
    where
      retried : (m : Option ParsedMessage) → SendsNoVote (retry send m)
      retried none = done-SendsNoVote
      retried (some msg) = safe msg

  run_ticker-SendsNoVote :
      (t : Ticker) (callback : M (Unit {0}))
      → SendsNoVote callback
      → SendsNoVote (run_ticker env send t callback)
  unfolding run_ticker run_callback
  run_ticker-SendsNoVote t callback h = >>=-SendsNoVote (now-SendsNoVote env) (λ before.
      if-SendsNoVote (tick before before t).0 (run_callback env send t before callback) (pure t)
        (>>=-SendsNoVote h (λ _.
          >>=-SendsNoVote (now-SendsNoVote env)
            (λ after. pure-SendsNoVote (tick before after t).1)))
        (pure-SendsNoVote t))

  run_tickers-SendsNoVote : (t : Tickers) → SendsNoVote (run_tickers env send t)
  unfolding run_tickers
  run_tickers-SendsNoVote t =
      search (vote_rules, run_ticker-SendsNoVote, work-SendsNoVote, retry_work-SendsNoVote) depth 12

  engine_round-VotesOnce :
      (u : Update) (t : Tickers) (n : PbftNode) → VotesOnce env u n (engine_round env send u t n).1
  unfolding engine_round
  engine_round-VotesOnce u t n =
      before-VotesOnce env u
        (subst (VotesOnce env u n) (sym (reported-same true (handle_update env send u) n))
          (handle_update-VotesOnce u n))
        (after-Keeps
          (λ j.
            commit_votes j.calls
            ≡ commit_votes (reported true (handle_update env send u) n).1.calls)
          rest (reported true (handle_update env send u) n).0
          (reported true (handle_update env send u) n).1
          (λ again e. (goes_on again).at (reported true (handle_update env send u) n).1) refl)
    where
      rest : Bool → M (Bool × Tickers)
      rest again = if not again then pure (false, t) else run_tickers env send t

      goes_on : (again : Bool) → SendsNoVote (rest again)
      goes_on again =
          if-SendsNoVote (not again) (pure (false, t)) (run_tickers env send t)
            (pure-SendsNoVote (false, t)) (run_tickers-SendsNoVote t)

-- In a whole round of the loop, with the update, the publishing, the timeout and the backlog, a node
-- broadcasts no `Commit` message, or exactly one. It does so only at the validator's notice that a block
-- is valid, and if that block is its working block and the node is in the phase Checking or Committing;
-- and the message is the one for that block in the node's own view and sequence number. No message of a
-- peer, no timeout and no other update ever makes a node vote to commit.
pub engine_round-commit_votes :
    (env : Env) (fuel : ℕ) (u : Update) (t : Tickers) (n : PbftNode)
    → VotesOnce env u n (engine_round env (on_peer_message env fuel) u t n).1
engine_round-commit_votes env fuel =
    engine_round-VotesOnce env (on_peer_message env fuel) (on_peer_message-SendsNoVote env fuel)
