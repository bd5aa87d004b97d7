-- ===== src/Node/Ends.antt =====
-- The parts of the model that never run out of fuel.
use sawtooth_pbft.Common.{
  Option-cases, ℕ, ◌≡◌, refl, sym, subst, ◌≢◌, inl, inr, Bool, true, false, Option, none, some,
  List, [], ◌∷◌, arith,
}
use sawtooth_pbft.Protos.{PbftMessageInfo}
use sawtooth_pbft.MessageType.{PbftMessageType}
use sawtooth_pbft.Error.{PbftError, Outcome, ok, err, panic, out_of_fuel}
use sawtooth_pbft.Outcome.{or_panic, or_fail}
use sawtooth_pbft.ParsedMessage.{ParsedMessage, info, get_block}
use sawtooth_pbft.State.{PbftState, get_primary_id}
use sawtooth_pbft.Log.{
  PbftLog, get_messages_of_type_seq, get_messages_of_type_seq_view, get_one_msg, filter_block,
  log_has_required_msgs, quorum, check_prepared, has_commits, check_committable,
}
use sawtooth_pbft.Service.{Env}
use sawtooth_pbft.Node.{PbftNode, M, ◌>>=◌, ◌>>◌, log_message}
use sawtooth_pbft.Node.Keeps.{after, log_message_cases}
use sawtooth_pbft.Handlers.{
  any_block, check_existing, enter_preparing, accept_pre_prepare, block_new_exists,
  handle_pre_prepare, handle_commit, set_current_view, take_role, handle_view_change,
}

-- An answer that is no lack of fuel.
abbrev pub Returns : {A : Type 0} → Outcome A → Type 0
Returns r = r ≢ out_of_fuel

abbrev pub Ends : {A : Type 0} → M A → Type 0
Ends m = (n : PbftNode) → Returns (m n).0

ok-Returns : {A : Type 0} (a : A) → Returns (ok a)
ok-Returns a e = cc

pub after-Ends :
    {A B : Type 0} (f : A → M B) (r : Outcome A) (n : PbftNode)
    → Returns r
    → ((a : A) → r ≡ ok a → Returns (f a n).0)
    → Returns (after f (r, n)).0
after-Ends f (ok a) n h k = k a refl
after-Ends f (err e) n h k = λ e. cc
after-Ends f panic n h k = λ e. cc
after-Ends f out_of_fuel n h k = absurd (h refl)

pub >>=-Ends :
    {A B : Type 0} (m : M A) (f : A → M B) → Ends m → ((a : A) → Ends (f a)) → Ends (m >>= f)
>>=-Ends m f h k n = after-Ends f (m n).0 (m n).1 (h n) (λ a e. k a (m n).1)

pub next-Ends :
    {A B : Type 0} (m : M A) (f : A → M B) (n : PbftNode) {a : A} {k : PbftNode}
    → m n ≡ (ok a, k)
    → Returns (f a k).0
    → Returns ((m >>= f) n).0
next-Ends m f n e h = subst (λ r. Returns (after f r).0) (sym e) h

or_panic-Returns : {A : Type 0} (o : Option A) → Returns (or_panic o)
or_panic-Returns none e = cc
or_panic-Returns (some a) e = cc

or_fail-Returns : {A : Type 0} (x : PbftError) (o : Option A) → Returns (or_fail x o)
or_fail-Returns x none e = cc
or_fail-Returns x (some a) e = cc

pub get_block-Returns : (m : ParsedMessage) → Returns (get_block m)
unfolding get_block
get_block-Returns m e = ground arith

filter_block-Returns :
    (ref : ParsedMessage) (ms : List ParsedMessage) → Returns (filter_block ref ms)
unfolding filter_block
filter_block-Returns ref [] e = cc
filter_block-Returns ref (m ∷ ms) e =
    ground (arith, get_block-Returns m, get_block-Returns ref, filter_block-Returns ref ms)

pub log_has-Returns :
    (t : PbftMessageType) (ref : ParsedMessage) (c : Bool) (k : ℕ) (log : PbftLog)
    → Returns (log_has_required_msgs t ref c k log)
unfolding log_has_required_msgs
log_has-Returns t ref c k log e = ground (
  arith,
  filter_block-Returns ref (get_messages_of_type_seq_view t (info ref).seq_num (info ref).view log),
)

pub check_prepared-Returns :
    (i : PbftMessageInfo) (f : ℕ) (log : PbftLog) → Returns (check_prepared i f log)
unfolding check_prepared
check_prepared-Returns i f log =
    elim (Option-cases (get_one_msg i PbftMessageType.pre_prepare log)) [
      | inl h ↦ rw (h, check_prepared) (ok-Returns false)
      | inr (p, h) ↦
          rw (h, check_prepared) (log_has-Returns PbftMessageType.prepare p true (quorum f) log)
    ]

has_commits-Returns : (i : PbftMessageInfo) (f : ℕ) (log : PbftLog) → Returns (has_commits i f log)
unfolding has_commits
has_commits-Returns i f log = elim (Option-cases (get_one_msg i PbftMessageType.pre_prepare log)) [
  | inl h ↦ rw h (λ e. cc)
  | inr (p, h) ↦ rw h (log_has-Returns PbftMessageType.commit p true (quorum f) log)
]

pub check_committable-Returns :
    (i : PbftMessageInfo) (f : ℕ) (log : PbftLog) → Returns (check_committable i f log)
unfolding check_committable
check_committable-Returns i f log e =
    ground (arith, check_prepared-Returns i f log, has_commits-Returns i f log)

any_block-Returns : (msg : ParsedMessage) (ms : List ParsedMessage) → Returns (any_block msg ms)
unfolding any_block
any_block-Returns msg [] e = cc
any_block-Returns msg (m ∷ ms) e =
    ground (arith, get_block-Returns m, get_block-Returns msg, any_block-Returns msg ms)

pub log_message-Ends : (msg : ParsedMessage) → Ends (log_message msg)
log_message-Ends msg n = elim (log_message_cases msg n) [
  | inl (v, e) ↦ rw e (λ x. cc)
  | inr (v, e) ↦ rw e (λ x. cc)
]

get_primary_id-Returns : (s : PbftState) → Returns (get_primary_id s)
unfolding get_primary_id
get_primary_id-Returns s = or_panic-Returns _

take_role-Ends : (env : Env) → Ends (take_role env)
unfolding take_role
take_role-Ends env n e = ground (arith, get_primary_id-Returns n.state)

pub handle_view_change-Ends : (env : Env) (msg : ParsedMessage) → Ends (handle_view_change env msg)
unfolding handle_view_change
handle_view_change-Ends env msg n e = ground (
  arith,
  log_has-Returns PbftMessageType.view_change msg false (quorum n.state.f) n.msg_log,
  take_role-Ends env (record n { state = set_current_view (info msg).view n.state }),
)

pub handle_commit-Ends : (env : Env) (msg : ParsedMessage) → Ends (handle_commit env msg)
unfolding handle_commit
handle_commit-Ends env msg n e = ground (arith, get_block-Returns msg)

check_existing-Ends : (msg : ParsedMessage) (o : Option ParsedMessage) → Ends (check_existing msg o)
unfolding check_existing
check_existing-Ends msg none n e = cc
check_existing-Ends msg (some p) n e = ground (arith, get_block-Returns p, get_block-Returns msg)

enter_preparing-Ends : (env : Env) (msg : ParsedMessage) → Ends (enter_preparing env msg)
unfolding enter_preparing
enter_preparing-Ends env msg n e = ground arith

accept_pre_prepare-Ends : (env : Env) (msg : ParsedMessage) → Ends (accept_pre_prepare env msg)
unfolding accept_pre_prepare
accept_pre_prepare-Ends env msg n =
    >>=-Ends (check_existing msg (get_one_msg (info msg) PbftMessageType.pre_prepare n.msg_log))
      (λ _. log_message msg >> enter_preparing env msg) (check_existing-Ends msg _)
      (λ _.
        >>=-Ends (log_message msg) (λ _. enter_preparing env msg) (log_message-Ends msg)
          (λ _. enter_preparing-Ends env msg))
      n

pub handle_pre_prepare-Ends : (env : Env) (msg : ParsedMessage) → Ends (handle_pre_prepare env msg)
unfolding handle_pre_prepare block_new_exists
handle_pre_prepare-Ends env msg n e = ground (
  arith,
  get_primary_id-Returns n.state,
  any_block-Returns msg
      (get_messages_of_type_seq PbftMessageType.block_new (info msg).seq_num n.msg_log),
  accept_pre_prepare-Ends env msg n,
)
