-- ===== src/Node/Voting.antt =====
-- The votes to commit that a node has sent, and the methods that send none.
use sawtooth_pbft.Common.{
  if◌then◌else◌, Bool-cases, ◌==◌, ==_iff, nat_eq, string_eq, Bytes, bytes_eq, String, ◌≡◌, refl,
  ◌∙◌, ◌≢◌, inl, inr, Bool, true, false, Option, List, [], ◌∷◌,
}
use sawtooth_pbft.Protos.{block_eq, info_eq, message_eq, seal_eq, view_change_eq}
use sawtooth_pbft.MessageType.{PbftMessageType, type_eq, type_name, type_name_injective}
use sawtooth_pbft.Error.{PbftError, Outcome}
use sawtooth_pbft.ParsedMessage.{ParsedMessage, parsed_eq}
use sawtooth_pbft.State.{phase_eq, PbftState}
use sawtooth_pbft.Log.{entry_eq, PbftLog}
use sawtooth_pbft.Log.Queries.{votes}
use sawtooth_pbft.Service.{Call, Env}
use sawtooth_pbft.Node.{
  PbftNode, M, ◌>>=◌, pure, fail, lift, query_state, query_log, reads_log, done, get_state,
  modify_state, modify_log, request, now, log_message,
}
use sawtooth_pbft.Node.Keeps.{>>=-Keeps, log_message-Keeps}

-- The votes with a call more.
abbrev pub with_vote : Call → List Bytes → List Bytes
with_vote (Call.broadcast t bytes) votes =
    if t == type_name PbftMessageType.commit then bytes ∷ votes else votes
with_vote c votes = votes

-- The bytes of the `Commit` messages among the calls, latest first.
unfoldable pub commit_votes : List Call → List Bytes
commit_votes [] = []
commit_votes (c ∷ calls) = with_vote c (commit_votes calls)

-- A call that sends no vote.
abbrev pub IsNoVote : Call → Type 0
IsNoVote c = (votes : List Bytes) → with_vote c votes ≡ votes

pub initialize_block-IsNoVote : (id : Option Bytes) → IsNoVote (Call.initialize_block id)
initialize_block-IsNoVote id votes = refl

pub summarize_block-IsNoVote : IsNoVote Call.summarize_block
summarize_block-IsNoVote votes = refl

pub finalize_block-IsNoVote : (payload : Bytes) → IsNoVote (Call.finalize_block payload)
finalize_block-IsNoVote payload votes = refl

pub check_blocks-IsNoVote : (ids : List Bytes) → IsNoVote (Call.check_blocks ids)
check_blocks-IsNoVote ids votes = refl

pub commit_block-IsNoVote : (id : Bytes) → IsNoVote (Call.commit_block id)
commit_block-IsNoVote id votes = refl

pub ignore_block-IsNoVote : (id : Bytes) → IsNoVote (Call.ignore_block id)
ignore_block-IsNoVote id votes = refl

pub fail_block-IsNoVote : (id : Bytes) → IsNoVote (Call.fail_block id)
fail_block-IsNoVote id votes = refl

pub get_settings-IsNoVote : (id : Bytes) (keys : List String) → IsNoVote (Call.get_settings id keys)
get_settings-IsNoVote id keys votes = refl

pub broadcast-IsNoVote :
    (t : PbftMessageType) (bytes : Bytes)
    → t ≢ PbftMessageType.commit
    → IsNoVote (Call.broadcast (type_name t) bytes)
broadcast-IsNoVote t bytes ne votes =
    elim (Bool-cases (type_name t == type_name PbftMessageType.commit)) [
      | inl e ↦ absurd (
          ne (
            type_name_injective t PbftMessageType.commit
              ((==_iff (type_name t) (type_name PbftMessageType.commit)).0 e)))
      | inr e ↦ rw e refl
    ]

-- A method that sends no vote, whatever it answers.
pub record SendsNoVote {A : Type 0} (m : M A) : Type 0 where
  pub at : (n : PbftNode) → commit_votes (m n).1.calls ≡ commit_votes n.calls

module _ {A : Type 0} where
  pub pure-SendsNoVote : (a : A) → SendsNoVote (pure a)
  pure-SendsNoVote a = record { at = λ n. refl }

  pub fail-SendsNoVote : (e : PbftError) → SendsNoVote (fail {A = A} e)
  fail-SendsNoVote e = record { at = λ n. refl }

  pub lift-SendsNoVote : (r : Outcome A) → SendsNoVote (lift r)
  lift-SendsNoVote r = record { at = λ n. refl }

  pub query_log-SendsNoVote : (g : PbftLog → Outcome A) → SendsNoVote (query_log g)
  query_log-SendsNoVote g = record { at = λ n. refl }

  pub reads_log-SendsNoVote : (g : PbftLog → A) → SendsNoVote (reads_log g)
  reads_log-SendsNoVote g = record { at = λ n. refl }

  pub query_state-SendsNoVote : (g : PbftState → Outcome A) → SendsNoVote (query_state g)
  query_state-SendsNoVote g = record { at = λ n. refl }

  pub >>=-SendsNoVote :
      {B : Type 0} {m : M A} {f : A → M B}
      → SendsNoVote m
      → ((a : A) → SendsNoVote (f a))
      → SendsNoVote (m >>= f)
  >>=-SendsNoVote {m = m} {f = f} h k = record {
    at = λ n.
        >>=-Keeps (λ j. commit_votes j.calls ≡ commit_votes n.calls) m f (λ j e. h.at j ∙ e)
          (λ a j e. (k a).at j ∙ e) n refl;
  }

  pub if-SendsNoVote :
      (b : Bool) (m k : M A) → SendsNoVote m → SendsNoVote k → SendsNoVote (if b then m else k)
  if-SendsNoVote true m k h g = h
  if-SendsNoVote false m k h g = g

  -- A `match` on what a call answers.
  pub match-SendsNoVote :
      {B : Type 0} (m : M A) (f : Outcome A → M B)
      → SendsNoVote m
      → ((r : Outcome A) → SendsNoVote (f r))
      → SendsNoVote (λ n. f (m n).0 (m n).1)
  match-SendsNoVote m f h k = record { at = λ n. (k (m n).0).at (m n).1 ∙ h.at n }

pub done-SendsNoVote : SendsNoVote done
done-SendsNoVote = record { at = λ n. refl }

pub get_state-SendsNoVote : SendsNoVote get_state
get_state-SendsNoVote = record { at = λ n. refl }

pub modify_state-SendsNoVote : (g : PbftState → PbftState) → SendsNoVote (modify_state g)
modify_state-SendsNoVote g = record { at = λ n. refl }

pub modify_log-SendsNoVote : (g : PbftLog → PbftLog) → SendsNoVote (modify_log g)
modify_log-SendsNoVote g = record { at = λ n. refl }

pub now-SendsNoVote : (env : Env) → SendsNoVote (now env)
now-SendsNoVote env = record { at = λ n. refl }

pub request-SendsNoVote : (env : Env) (c : Call) → IsNoVote c → SendsNoVote (request env c)
unfolding commit_votes
request-SendsNoVote env c h = record { at = λ n. h (commit_votes n.calls) }

pub log_message-SendsNoVote : (msg : ParsedMessage) → SendsNoVote (log_message msg)
log_message-SendsNoVote msg = record {
  at = λ n.
      log_message-Keeps (λ j. commit_votes j.calls ≡ commit_votes n.calls) msg (λ j e. e) n refl;
}

pub ruleset vote_rules = (
  pure-SendsNoVote, fail-SendsNoVote, lift-SendsNoVote, query_log-SendsNoVote,
  reads_log-SendsNoVote, query_state-SendsNoVote, >>=-SendsNoVote, if-SendsNoVote, done-SendsNoVote,
  get_state-SendsNoVote, modify_state-SendsNoVote, modify_log-SendsNoVote, now-SendsNoVote,
  request-SendsNoVote, log_message-SendsNoVote, initialize_block-IsNoVote, summarize_block-IsNoVote,
  finalize_block-IsNoVote, check_blocks-IsNoVote, commit_block-IsNoVote, ignore_block-IsNoVote,
  fail_block-IsNoVote, get_settings-IsNoVote,
)
