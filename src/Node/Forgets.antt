-- ===== src/Node/Forgets.antt =====
-- A view change between the commit of a block and the validator's notice of it.
use sawtooth_pbft.Common.{Bytes, ◌≡◌, sym, ap, ◌∙◌, inl, inr}
use sawtooth_pbft.Error.{ok}
use sawtooth_pbft.ParsedMessage.{ParsedMessage, info}
use sawtooth_pbft.State.{PbftPhase, get_primary_id}
use sawtooth_pbft.Service.{Env}
use sawtooth_pbft.Node.{PbftNode}
use sawtooth_pbft.Handlers.{set_current_view, adopt_view}
use sawtooth_pbft.Node.Blocks.{on_block_commit}
use sawtooth_pbft.Handlers.Views.{adopt_view-EntersView}
use sawtooth_pbft.Node.Progress.{on_block_commit_lem}

-- A node that adopts a view with a known primary, after it has handed its block to the validator or not,
-- does not act on a notice that any block is committed: its sequence number stays what it was before
-- the view change.
pub adopt_view-on_block_commit :
    (env : Env) (msg : ParsedMessage) (n : PbftNode) (p id : Bytes)
    → get_primary_id (set_current_view (info msg).view n.state) ≡ ok p
    → (on_block_commit env id (adopt_view env msg n).1 ≡ (ok tt, (adopt_view env msg n).1))
      × ((on_block_commit env id (adopt_view env msg n).1).1.state.seq_num ≡ n.state.seq_num)
adopt_view-on_block_commit env msg n p id known =
    let entered = (adopt_view-EntersView env msg n p known).1 in
    let ignored =
      elim (on_block_commit_lem env id (adopt_view env msg n).1)
        as (λ _.
          on_block_commit env id (adopt_view env msg n).1 ≡ (ok tt, (adopt_view env msg n).1)) [
            | inl (why, same) ↦ same
            | inr (finished, working, starts) ↦ absurd (apart (sym entered.at_start ∙ finished))
          ] in
    (ignored, ap (λ r. r.1.state.seq_num) ignored ∙ entered.same_seq)
  where
    apart : PbftPhase.pre_preparing ≡ PbftPhase.finished → ⊥
    apart e = cc
