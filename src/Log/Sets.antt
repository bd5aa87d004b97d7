-- ===== src/Log/Sets.antt =====
-- `HashSet::insert` as a list without duplicates, and what `add_message` does to the log.
use sawtooth_pbft.Common.{
  Bool-cases, In, PartialEq, ==_iff, nat_eq, string_eq, bytes_eq, ℕ, ◌≡◌, refl, sym, ◌↔◌, ◌⊎◌, inl,
  inr, true, List, [], ◌∷◌, ◌++◌, arith,
}
use sawtooth_pbft.MessageType.{PbftMessageType, type_eq, from_str}
use sawtooth_pbft.ParsedMessage.{ParsedMessage, parsed_eq, info}
use sawtooth_pbft.Log.{entry_eq, contains, insert, PbftLog, add_message}
use sawtooth_pbft.Protos.{block_eq, info_eq, message_eq, seal_eq, view_change_eq}
use sawtooth_pbft.Error.{PbftError, ok, err}
use sawtooth_pbft.State.{phase_eq}

module _ {A : Type 0} ⦃e : PartialEq A⦄ where
  pub contains_iff : (a : A) (xs : List A) → (contains a xs ≡ true) ↔ In a xs
  unfolding contains
  contains_iff a [] = ground arith
  contains_iff a (x ∷ xs) = ground (arith, e.matches_iff a x, contains_iff a xs)

  In-append : (a : A) (xs ys : List A) → In a (xs ++ ys) ↔ (In a xs ⊎ In a ys)
  In-append a [] ys = ground arith
  In-append a (x ∷ xs) ys = ground (arith, In-append a xs ys)

  -- The new entry is there, and no other entry has come or gone.
  pub In-insert : (a b : A) (xs : List A) → In b (insert a xs) ↔ ((b ≡ a) ⊎ In b xs)
  unfolding insert
  In-insert a b xs = elim (Bool-cases (contains a xs)) [
    | inl old ↦ rw old (λ h. inr h, λ h. old_entry old h)
    | inr new ↦ rw new (λ h. swapped ((In-append b xs (a ∷ [])).0 h), λ h. added h)
  ]
    where
      old_entry : contains a xs ≡ true → (b ≡ a) ⊎ In b xs → In b xs
      old_entry old (inl same) = rw same ((contains_iff a xs).0 old)
      old_entry old (inr h) = h

      swapped : In b xs ⊎ In b (a ∷ []) → (b ≡ a) ⊎ In b xs
      swapped (inl h) = inr h
      swapped (inr (inl same)) = inl same
      swapped (inr (inr h)) = absurd h

      added : (b ≡ a) ⊎ In b xs → In b (xs ++ a ∷ [])
      added (inl same) = (In-append b xs (a ∷ [])).1 (inr (inl same))
      added (inr h) = (In-append b xs (a ∷ [])).1 (inl h)

  -- No entry stands twice.
  abbrev pub IsDistinct : List A → Type 0
  IsDistinct [] = Unit
  IsDistinct (x ∷ xs) = ¬ (In x xs) × IsDistinct xs

  IsDistinct-snoc : (a : A) (xs : List A) → IsDistinct xs → ¬ (In a xs) → IsDistinct (xs ++ a ∷ [])
  IsDistinct-snoc a [] d h = (λ i. i, tt)
  IsDistinct-snoc a (x ∷ xs) d h =
      (λ i. fresh ((In-append x xs (a ∷ [])).0 i), IsDistinct-snoc a xs d.1 (λ i. h (inr i)))
    where
      fresh : In x xs ⊎ In x (a ∷ []) → ⊥
      fresh (inl i) = d.0 i
      fresh (inr (inl same)) = h (inl (sym same))
      fresh (inr (inr i)) = i

  pub insert-IsDistinct : (a : A) (xs : List A) → IsDistinct xs → IsDistinct (insert a xs)
  unfolding insert
  insert-IsDistinct a xs d = elim (Bool-cases (contains a xs)) [
    | inl old ↦ rw old d
    | inr new ↦ rw new (IsDistinct-snoc a xs d (λ i. ground (arith, new, (contains_iff a xs).1 i)))
  ]

-- `log'` is `log` with one message more, unless it was there.
pub record Logged (msg : ParsedMessage) (log log' : PbftLog) : Type 0 where
  pub in_log : (m : ParsedMessage) → In m log'.messages ↔ ((m ≡ msg) ⊎ In m log.messages)
  pub distinct : IsDistinct log.messages → IsDistinct log'.messages
  pub same_seals : log'.seals ≡ log.seals
  pub same_backlog : log'.backlog ≡ log.backlog
  pub same_limit : log'.max_log_size ≡ log.max_log_size

-- The messages that `add_message` takes in a view.
abbrev pub IsForView : ℕ → ParsedMessage → Type 0
IsForView view msg =
    (from_str (info msg).msg_type ≡ PbftMessageType.view_change) ⊎ ((info msg).view ≡ view)

abbrev pub with_message : ParsedMessage → PbftLog → PbftLog
with_message msg log = record log { messages = insert msg log.messages }

with_message-Logged : (msg : ParsedMessage) (log : PbftLog) → Logged msg log (with_message msg log)
with_message-Logged msg log = record {
  in_log = λ m. In-insert msg m log.messages;
  distinct = insert-IsDistinct msg log.messages;
  same_seals = refl;
  same_backlog = refl;
  same_limit = refl;
}

pub add_message_accepts :
    (msg : ParsedMessage) (view : ℕ) (log : PbftLog)
    → IsForView view msg
    → add_message msg view log ≡ ok (with_message msg log)
unfolding add_message
add_message_accepts msg view log h =
    ground (arith, ==_iff (from_str (info msg).msg_type) PbftMessageType.view_change)

pub add_message_refuses :
    (msg : ParsedMessage) (view : ℕ) (log : PbftLog)
    → ¬ IsForView view msg
    → add_message msg view log ≡ err (PbftError.view_mismatch (info msg).view view)
unfolding add_message
add_message_refuses msg view log h =
    ground (arith, ==_iff (from_str (info msg).msg_type) PbftMessageType.view_change)

pub IsForView-dec : (view : ℕ) (msg : ParsedMessage) → IsForView view msg ⊎ ¬ IsForView view msg
IsForView-dec view msg =
    ground (arith, ==_iff (from_str (info msg).msg_type) PbftMessageType.view_change)

-- `add_message` takes exactly the `ViewChange` messages and those of the given view: such a message
-- is in the log afterwards with those that were there and no other, each once, and the seals and the
-- backlog stay; any other message is answered by a view mismatch of its view and the given one.
pub add_message_lem :
    (msg : ParsedMessage) (view : ℕ) (log : PbftLog)
    → (IsForView view msg
        × ((log' : PbftLog) × (add_message msg view log ≡ ok log') × Logged msg log log'))
      ⊎ (¬ IsForView view msg
          × (add_message msg view log ≡ err (PbftError.view_mismatch (info msg).view view)))
add_message_lem msg view log = elim (IsForView-dec view msg) [
  | inl h ↦
      inl
        (h, (with_message msg log, add_message_accepts msg view log h, with_message-Logged msg log))
  | inr h ↦ inr (h, add_message_refuses msg view log h)
]
