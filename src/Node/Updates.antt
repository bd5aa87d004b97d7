-- ===== src/Node/Updates.antt =====
-- Committing a block, with the garbage collection of the log, keeps the agreement of the log.
use sawtooth_pbft.Common.{leb, Bool-cases, length, filter, Bytes, sub64, ℕ, inl, inr, Bool, List}
use sawtooth_pbft.ParsedMessage.{ParsedMessage, parsed_eq, info}
use sawtooth_pbft.Log.{PbftLog, garbage_collect}
use sawtooth_pbft.Log.Queries.{In-filter, filter-IsDistinct}
use sawtooth_pbft.Service.{Env}
use sawtooth_pbft.Handlers.{force_view_change}
use sawtooth_pbft.Node.Blocks.{finish_block, on_block_commit}
use sawtooth_pbft.Node.Preserves.{LogKeeps, modify_log-LogKeeps, log_rules}
use sawtooth_pbft.Handlers.Agreed.{LogAgrees}
use sawtooth_pbft.Node.Unlogged.{
  take_role-LogKeeps, needs_view_change-LogKeeps, restart_timeout-LogKeeps, start_block-LogKeeps,
}

-- What is left of an agreeing log agrees.
filter-LogAgrees :
    (p : ParsedMessage → Bool) (ms : List ParsedMessage) → LogAgrees ms → LogAgrees (filter p ms)
filter-LogAgrees p ms v = record {
  distinct = filter-IsDistinct p ⦃e = parsed_eq⦄ ms v.distinct;
  agreed = λ m k seq view b c im ik.
      v.agreed m k seq view b c ((In-filter p m ms).0 im).0 ((In-filter p k ms).0 ik).0;
}

garbage_collect-LogAgrees :
    (seq : ℕ) (id : Bytes) (log : PbftLog)
    → LogAgrees log.messages
    → LogAgrees (garbage_collect seq id log).messages
unfolding garbage_collect
garbage_collect-LogAgrees seq id log v =
    elim (Bool-cases (leb log.max_log_size (length log.messages))) [
      | inl e ↦ rw e (filter-LogAgrees (λ m. leb (sub64 seq 1) (info m).seq_num) log.messages v)
      | inr e ↦ rw e v
    ]

module _ (env : Env) where
  finish_block-LogKeeps : (id : Bytes) → LogKeeps LogAgrees (finish_block env id)
  unfolding finish_block force_view_change
  finish_block-LogKeeps id =
      search
        (
          log_rules, needs_view_change-LogKeeps, restart_timeout-LogKeeps, start_block-LogKeeps,
          take_role-LogKeeps, modify_log-LogKeeps, garbage_collect-LogAgrees,
        )
        depth 16

  pub on_block_commit-LogKeeps : (id : Bytes) → LogKeeps LogAgrees (on_block_commit env id)
  unfolding on_block_commit
  on_block_commit-LogKeeps id = search (log_rules, finish_block-LogKeeps) depth 12
