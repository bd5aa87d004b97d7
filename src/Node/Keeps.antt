-- ===== src/Node/Keeps.antt =====
-- Rules for what a method leaves true of the node, by the parts of its `do` block.
use sawtooth_pbft.Common.{if◌then◌else◌, ◌≡◌, refl, sym, subst, ◌⊎◌, inl, inr, Bool, true, false}
use sawtooth_pbft.Error.{PbftError, Outcome, ok, err, panic, out_of_fuel}
use sawtooth_pbft.ParsedMessage.{ParsedMessage, info}
use sawtooth_pbft.Log.Sets.{
  IsForView, with_message, add_message_accepts, add_message_refuses, IsForView-dec,
}
use sawtooth_pbft.Node.{PbftNode, M, ◌>>=◌, log_message}

-- Whatever a call answers, `P` holds afterwards if it held before.
abbrev pub Keeps : {A : Type 0} → (PbftNode → Type 0) → M A → Type 0
Keeps P m = (n : PbftNode) → P n → P (m n).1

-- A step whose answer is `ok a` goes on with `f a`; else nothing more happens.
abbrev pub after : {A B : Type 0} → (A → M B) → Outcome A × PbftNode → Outcome B × PbftNode
after f (r, n) = elim r [
  | ok a ↦ f a n
  | err e ↦ (err e, n)
  | panic ↦ (panic, n)
  | out_of_fuel ↦ (out_of_fuel, n)
]

pub after-Keeps :
    {A B : Type 0} (P : PbftNode → Type 0) (f : A → M B) (r : Outcome A) (n : PbftNode)
    → ((a : A) → r ≡ ok a → P (f a n).1)
    → P n
    → P (after f (r, n)).1
after-Keeps P f (ok a) n h p = h a refl
after-Keeps P f (err e) n h p = p
after-Keeps P f panic n h p = p
after-Keeps P f out_of_fuel n h p = p

pub >>=-Keeps :
    {A B : Type 0} (P : PbftNode → Type 0) (m : M A) (f : A → M B)
    → Keeps P m
    → ((a : A) → Keeps P (f a))
    → Keeps P (m >>= f)
>>=-Keeps P m f h k n p = after-Keeps P f (m n).0 (m n).1 (λ a e. k a (m n).1 (h n p)) (h n p)

-- The first step's answer is known.
pub next-Keeps :
    {A B : Type 0} (P : PbftNode → Type 0) (m : M A) (f : A → M B) (n : PbftNode) {a : A}
    {k : PbftNode}
    → m n ≡ (ok a, k)
    → P (f a k).1
    → P ((m >>= f) n).1
next-Keeps P m f n e h = subst (λ r. P (after f r).1) (sym e) h

pub stop-Keeps :
    {A B : Type 0} (P : PbftNode → Type 0) (m : M A) (f : A → M B) (n : PbftNode) {x : PbftError}
    {k : PbftNode}
    → m n ≡ (err x, k)
    → P k
    → P ((m >>= f) n).1
stop-Keeps P m f n e h = subst (λ r. P (after f r).1) (sym e) h

pub if-Keeps :
    {A : Type 0} (P : PbftNode → Type 0) (b : Bool) (m k : M A)
    → Keeps P m
    → Keeps P k
    → Keeps P (if b then m else k)
if-Keeps P true m k h g = h
if-Keeps P false m k h g = g

-- The node with one message more in its log.
abbrev pub with_logged : ParsedMessage → PbftNode → PbftNode
with_logged msg n = record n { msg_log = with_message msg n.msg_log }

-- `log_message` puts a message of the view, or a `ViewChange`, into the log, and refuses any other.
pub log_message_cases :
    (msg : ParsedMessage) (n : PbftNode)
    → (IsForView n.state.view msg × (log_message msg n ≡ (ok tt, with_logged msg n)))
      ⊎ (¬ IsForView n.state.view msg
          × (log_message msg n ≡ (err (PbftError.view_mismatch (info msg).view n.state.view), n)))
unfolding log_message
log_message_cases msg n = elim (IsForView-dec n.state.view msg) [
  | inl v ↦ inl (v, rw (add_message_accepts msg n.state.view n.msg_log v, log_message))
  | inr v ↦ inr (v, rw (add_message_refuses msg n.state.view n.msg_log v, log_message))
]

pub log_message-Keeps :
    (P : PbftNode → Type 0) (msg : ParsedMessage)
    → ((n : PbftNode) → P n → P (record n { msg_log = with_message msg n.msg_log }))
    → Keeps P (log_message msg)
log_message-Keeps P msg h n p = elim (log_message_cases msg n) [
  | inl (v, e) ↦ rw e (h n p)
  | inr (v, e) ↦ rw e p
]
