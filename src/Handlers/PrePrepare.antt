-- ===== src/Handlers/PrePrepare.antt =====
-- The `PrePrepare` handler keeps the log valid.
use sawtooth_pbft.Common.{
  All, nat_eq, string_eq, bytes_eq, ◌≡◌, sym, ◌∙◌, ◌≢◌, Option, none, some, List,
}
use sawtooth_pbft.Protos.{block_eq, info_eq, message_eq, seal_eq, view_change_eq}
use sawtooth_pbft.MessageType.{PbftMessageType, type_eq, from_str}
use sawtooth_pbft.ParsedMessage.{ParsedMessage, parsed_eq, info}
use sawtooth_pbft.State.{phase_eq}
use sawtooth_pbft.Log.{entry_eq, insert}
use sawtooth_pbft.Log.Sets.{insert-IsDistinct}
use sawtooth_pbft.Log.Queries.{IsWellTyped}
use sawtooth_pbft.Log.Order.{Agrees}
use sawtooth_pbft.Service.{Env}
use sawtooth_pbft.Node.{PbftNode, log_message}
use sawtooth_pbft.Handlers.{check_existing, accept_pre_prepare, handle_pre_prepare}
use sawtooth_pbft.Handlers.Agreement.{LogIsValid, NodeIsValid, All-insert, insert_other-Agrees}
use sawtooth_pbft.Node.Preserves.{LogKeeps, done-LogKeeps, log_message-LogKeeps, log_rules}
use sawtooth_pbft.Handlers.Agreed.{LogAgrees, not_pre_prepare}
use sawtooth_pbft.Handlers.Accepts.{enter_preparing-LogKeeps, handle_pre_prepare-LogAgrees}

LogIsValid-insert :
    (msg : ParsedMessage) (ms : List ParsedMessage)
    → IsWellTyped msg
    → Agrees (insert msg ms)
    → LogIsValid ms
    → LogIsValid (insert msg ms)
LogIsValid-insert msg ms w a v = record {
  typed = All-insert IsWellTyped msg ms w v.typed;
  distinct = insert-IsDistinct msg ms v.distinct;
  agreed = a;
}

-- A message of another type keeps the log valid.
pub insert_other-LogIsValid :
    (t : PbftMessageType) (msg : ParsedMessage) (ms : List ParsedMessage)
    → t ≢ PbftMessageType.pre_prepare
    → from_str (info msg).msg_type ≡ t
    → IsWellTyped msg
    → LogIsValid ms
    → LogIsValid (insert msg ms)
insert_other-LogIsValid t msg ms ne h w v =
    LogIsValid-insert msg ms w
      (insert_other-Agrees msg ms (not_pre_prepare msg (λ e. ne (sym h ∙ e))) v.agreed) v

module _ (env : Env) (msg : ParsedMessage) (w : IsWellTyped msg) where
  log_message-typed : LogKeeps (All IsWellTyped) (log_message msg)
  log_message-typed = log_message-LogKeeps msg (λ ms. All-insert IsWellTyped msg ms w)

  check_existing-typed :
      (p : Option ParsedMessage) → LogKeeps (All IsWellTyped) (check_existing msg p)
  unfolding check_existing
  check_existing-typed none = done-LogKeeps
  check_existing-typed (some p) = search log_rules depth 12

  handle_pre_prepare-typed : LogKeeps (All IsWellTyped) (handle_pre_prepare env msg)
  unfolding handle_pre_prepare accept_pre_prepare
  handle_pre_prepare-typed =
      search (log_rules, log_message-typed, check_existing-typed, enter_preparing-LogKeeps env msg)
        depth 12

pub handle_pre_prepare-LogIsValid :
    (env : Env) (msg : ParsedMessage)
    → IsWellTyped msg
    → LogKeeps LogIsValid (handle_pre_prepare env msg)
handle_pre_prepare-LogIsValid env msg w = record {
  at = λ n v.
      let agrees : LogAgrees n.msg_log.messages = record {
        distinct = v.distinct;
        agreed = v.agreed;
      } in
      let u = (handle_pre_prepare-LogAgrees env msg).at n agrees in
      record {
        typed = (handle_pre_prepare-typed env msg w).at n v.typed;
        distinct = u.distinct;
        agreed = u.agreed;
      };
}

-- `handle_pre_prepare` of a well-typed message keeps the log valid, whatever it answers: no message
-- stands twice, and no two `PrePrepare` messages of one view and sequence number carry different
-- blocks.
pub handle_pre_prepare-NodeIsValid :
    (env : Env) (msg : ParsedMessage) (n : PbftNode)
    → IsWellTyped msg
    → NodeIsValid n
    → NodeIsValid (handle_pre_prepare env msg n).1
handle_pre_prepare-NodeIsValid env msg n w = (handle_pre_prepare-LogIsValid env msg w).at n
