-- ===== src/Node/Preserves.antt =====
-- Rules by which a method keeps a property of the logged messages, one for each part of its `do`
-- block. They say `LogKeeps Q m`: whatever `m` answers, `Q` holds of the messages afterwards if it
-- held before.
use sawtooth_pbft.Common.{if◌then◌else◌, nat_eq, string_eq, bytes_eq, ◌≡◌, Bool, true, false, List}
use sawtooth_pbft.Protos.{block_eq, info_eq, message_eq, seal_eq, view_change_eq}
use sawtooth_pbft.Error.{PbftError, Outcome, ok}
use sawtooth_pbft.ParsedMessage.{ParsedMessage, parsed_eq}
use sawtooth_pbft.State.{phase_eq, PbftState}
use sawtooth_pbft.Log.{entry_eq, insert, PbftLog}
use sawtooth_pbft.Service.{Call, Env}
use sawtooth_pbft.Node.{
  PbftNode, M, ◌>>=◌, pure, fail, lift, query_state, query_log, reads_log, done, get_state,
  modify_state, modify_log, request, now, log_message,
}
use sawtooth_pbft.Node.Keeps.{after-Keeps, >>=-Keeps, log_message-Keeps}
use sawtooth_pbft.MessageType.{type_eq}

pub record LogKeeps (Q : List ParsedMessage → Type 0) {A : Type 0} (m : M A) : Type 0 where
  pub at : (n : PbftNode) → Q n.msg_log.messages → Q (m n).1.msg_log.messages

module _ {Q : List ParsedMessage → Type 0} {A : Type 0} where
  pub pure-LogKeeps : (a : A) → LogKeeps Q (pure a)
  pure-LogKeeps a = record { at = λ n h. h }

  pub fail-LogKeeps : (e : PbftError) → LogKeeps Q (fail {A = A} e)
  fail-LogKeeps e = record { at = λ n h. h }

  pub lift-LogKeeps : (r : Outcome A) → LogKeeps Q (lift r)
  lift-LogKeeps r = record { at = λ n h. h }

  pub reads_log-LogKeeps : (g : PbftLog → A) → LogKeeps Q (reads_log g)
  reads_log-LogKeeps g = record { at = λ n h. h }

  pub query_log-LogKeeps : (g : PbftLog → Outcome A) → LogKeeps Q (query_log g)
  query_log-LogKeeps g = record { at = λ n h. h }

  pub query_state-LogKeeps : (g : PbftState → Outcome A) → LogKeeps Q (query_state g)
  query_state-LogKeeps g = record { at = λ n h. h }

  pub >>=-LogKeeps :
      {B : Type 0} {m : M A} {f : A → M B}
      → LogKeeps Q m
      → ((a : A) → LogKeeps Q (f a))
      → LogKeeps Q (m >>= f)
  >>=-LogKeeps {m = m} {f = f} h k = record {
    at = λ n q. >>=-Keeps (λ j. Q j.msg_log.messages) m f (h.at) (λ a. (k a).at) n q;
  }

  pub if-LogKeeps :
      (b : Bool) (m k : M A) → LogKeeps Q m → LogKeeps Q k → LogKeeps Q (if b then m else k)
  if-LogKeeps true m k h g = h
  if-LogKeeps false m k h g = g

module _ {Q : List ParsedMessage → Type 0} where
  pub done-LogKeeps : LogKeeps Q done
  done-LogKeeps = record { at = λ n h. h }

  pub get_state-LogKeeps : LogKeeps Q get_state
  get_state-LogKeeps = record { at = λ n h. h }

  pub modify_state-LogKeeps : (g : PbftState → PbftState) → LogKeeps Q (modify_state g)
  modify_state-LogKeeps g = record { at = λ n h. h }

  pub request-LogKeeps : (env : Env) (c : Call) → LogKeeps Q (request env c)
  request-LogKeeps env c = record { at = λ n h. h }

  pub now-LogKeeps : (env : Env) → LogKeeps Q (now env)
  now-LogKeeps env = record { at = λ n h. h }

module _ {Q : List ParsedMessage → Type 0} where
  -- A change of the log that keeps the property of its messages.
  pub modify_log-LogKeeps :
      (g : PbftLog → PbftLog)
      → ((log : PbftLog) → Q log.messages → Q (g log).messages)
      → LogKeeps Q (modify_log g)
  modify_log-LogKeeps g h = record { at = λ n q. h n.msg_log q }

  -- The rest of a block may use how a value was found.
  pub lift_bind-LogKeeps :
      {A B : Type 0} (r : Outcome A) (f : A → M B)
      → ((a : A) → r ≡ ok a → LogKeeps Q (f a))
      → LogKeeps Q (lift r >>= f)
  lift_bind-LogKeeps r f h = record {
    at = λ n q. after-Keeps (λ j. Q j.msg_log.messages) f r n (λ a e. (h a e).at n q) q;
  }

  -- A `match` on the answer of a call, which keeps what the call has written.
  pub match-LogKeeps :
      {A B : Type 0} (m : M A) (f : Outcome A → M B)
      → LogKeeps Q m
      → ((r : Outcome A) → LogKeeps Q (f r))
      → LogKeeps Q (λ n. f (m n).0 (m n).1)
  match-LogKeeps m f h k = record { at = λ n q. (k (m n).0).at (m n).1 (h.at n q) }

  -- `log_message` puts one message into the log, or none.
  pub log_message-LogKeeps :
      (msg : ParsedMessage)
      → ((ms : List ParsedMessage) → Q ms → Q (insert msg ms))
      → LogKeeps Q (log_message msg)
  log_message-LogKeeps msg h = record {
    at = log_message-Keeps (λ j. Q j.msg_log.messages) msg (λ n q. h n.msg_log.messages q);
  }

pub ruleset log_rules = (
  pure-LogKeeps, fail-LogKeeps, lift-LogKeeps, reads_log-LogKeeps, query_log-LogKeeps,
  query_state-LogKeeps, >>=-LogKeeps, if-LogKeeps, done-LogKeeps, get_state-LogKeeps,
  modify_state-LogKeeps, request-LogKeeps, now-LogKeeps,
)
