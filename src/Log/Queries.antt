-- ===== src/Log/Queries.antt =====
-- The counts behind `check_prepared` and `check_committable`.
use text.Mathlib.TextEquality.{eq_iff}
use sawtooth_pbft.Common.{
  leb, Bool-cases, length, first, filter, All, In, PartialEq, ◌==◌, nat_eq, string_eq, bytes_eq, ℕ,
  ◌≡◌, refl, sym, ◌∙◌, subst, ◌≢◌, ◌↔◌, ◌⊎◌, inl, inr, Bool, true, false, ◌&&◌, some, List, [], ◌∷◌,
  arith,
}
use sawtooth_pbft.Protos.{
  PbftBlock, PbftMessageInfo, block_eq, info_eq, message_eq, seal_eq, view_change_eq,
}
use sawtooth_pbft.MessageType.{PbftMessageType, type_eq, type_name, type_name_injective}
use sawtooth_pbft.Error.{ok}
use sawtooth_pbft.ParsedMessage.{PbftMessageWrapper, ParsedMessage, parsed_eq, info, get_block}
use sawtooth_pbft.State.{phase_eq}
use sawtooth_pbft.Log.{
  entry_eq, PbftLog, is_type_seq_view, get_messages_of_type_seq_view, get_one_msg, filter_block,
  log_has_required_msgs,
}
use sawtooth_pbft.Log.Sets.{IsDistinct}

abbrev pub count {ℓ} : {A : Type ℓ} → (A → Bool) → List A → ℕ
count p xs = length (filter p xs)

module _ {A : Type 0} (p : A → Bool) where
  pub In-filter : (a : A) (xs : List A) → In a (filter p xs) ↔ (In a xs × (p a ≡ true))
  In-filter a [] = ground arith
  In-filter a (x ∷ xs) = ground (arith, In-filter a xs)

  pub first-filter : (a : A) (xs : List A) → first (filter p xs) ≡ some a → In a xs × (p a ≡ true)
  first-filter a [] h = cc
  first-filter a (x ∷ xs) h = ground (arith, first-filter a xs)

  pub filter-IsDistinct :
      ⦃e : PartialEq A⦄ → (xs : List A) → IsDistinct xs → IsDistinct (filter p xs)
  filter-IsDistinct [] d = d
  filter-IsDistinct (x ∷ xs) d = elim (Bool-cases (p x)) [
    | inl h ↦ rw h (λ i. d.0 ((In-filter x xs).0 i).0, filter-IsDistinct xs d.1)
    | inr h ↦ rw h (filter-IsDistinct xs d.1)
  ]

  filter-filter :
      (q : A → Bool) (xs : List A) → filter q (filter p xs) ≡ filter (λ x. p x && q x) xs
  filter-filter q [] = refl
  filter-filter q (x ∷ xs) = ground (arith, filter-filter q xs)

-- The block that a message carries, if it is no view change.
abbrev pub wrapped_block_is : PbftBlock → PbftMessageWrapper → Bool
wrapped_block_is b (PbftMessageWrapper.message m) = m.block == b
wrapped_block_is b (PbftMessageWrapper.view_change m) = false

abbrev pub block_is : PbftBlock → ParsedMessage → Bool
block_is b m = wrapped_block_is b m.message

abbrev pub HasBlock : ParsedMessage → Type 0
HasBlock m = (b : PbftBlock) × (get_block m ≡ ok b)

-- Only messages of type `ViewChange` wrap a view change.
abbrev pub IsWellTyped : ParsedMessage → Type 0
IsWellTyped m = ((info m).msg_type ≡ type_name PbftMessageType.view_change) ⊎ HasBlock m

filter-HasBlock :
    (t : PbftMessageType) (seq view : ℕ) (xs : List ParsedMessage)
    → t ≢ PbftMessageType.view_change
    → All IsWellTyped xs
    → All HasBlock (filter (is_type_seq_view t seq view) xs)
unfolding is_type_seq_view
filter-HasBlock t seq view [] h w = tt
filter-HasBlock t seq view (m ∷ ms) h w = elim (Bool-cases (is_type_seq_view t seq view m)) [
  | inl hit ↦ rw hit (is_typed hit w.0, filter-HasBlock t seq view ms h w.1)
  | inr miss ↦ rw miss (filter-HasBlock t seq view ms h w.1)
]
  where
    is_typed : is_type_seq_view t seq view m ≡ true → IsWellTyped m → HasBlock m
    is_typed hit (inl vc) = ground (
      arith,
      eq_iff (info m).msg_type (type_name t),
      type_name_injective t PbftMessageType.view_change,
    )
    is_typed hit (inr b) = b

filter_block_lem :
    (ref : ParsedMessage) (b : PbftBlock) (ms : List ParsedMessage)
    → get_block ref ≡ ok b
    → All HasBlock ms
    → filter_block ref ms ≡ ok (filter (block_is b) ms)
unfolding filter_block get_block
filter_block_lem ref b [] h w = refl
filter_block_lem ref b (m ∷ ms) h w = ground (arith, filter_block_lem ref b ms h w.1)

-- How many messages of a type, sequence number and view carry a block.
abbrev pub votes : PbftMessageType → ℕ → ℕ → PbftBlock → PbftLog → ℕ
votes t seq view b log = count (λ m. is_type_seq_view t seq view m && block_is b m) log.messages

pub log_has_required_msgs_lem :
    (t : PbftMessageType) (ref : ParsedMessage) (b : PbftBlock) (required : ℕ) (log : PbftLog)
    → t ≢ PbftMessageType.view_change
    → All IsWellTyped log.messages
    → get_block ref ≡ ok b
    → log_has_required_msgs t ref true required log
      ≡ ok (leb required (votes t (info ref).seq_num (info ref).view b log))
unfolding log_has_required_msgs get_messages_of_type_seq_view
log_has_required_msgs_lem t ref b required log h w e =
    let seq = (info ref).seq_num in
    let view = (info ref).view in
    rw (
      filter_block_lem ref b (filter (is_type_seq_view t seq view) log.messages) e
          (filter-HasBlock t seq view log.messages h w),
      filter-filter (is_type_seq_view t seq view) (block_is b) log.messages,
    )

-- What `get_one_msg` finds is in the log and of the type, sequence number and view asked for.
pub get_one_msg_lem :
    (i : PbftMessageInfo) (t : PbftMessageType) (log : PbftLog) (p : ParsedMessage)
    → get_one_msg i t log ≡ some p
    → In p log.messages
      × ((info p).msg_type ≡ type_name t)
      × ((info p).seq_num ≡ i.seq_num)
      × ((info p).view ≡ i.view)
unfolding get_one_msg is_type_seq_view
get_one_msg_lem i t log p h =
    let found = first-filter (is_type_seq_view t i.seq_num i.view) p log.messages h in
    (
      found.0,
      ground (arith, eq_iff (info p).msg_type (type_name t), found.1),
      ground (arith, found.1),
      ground (arith, found.1),
    )

In-All : {A : Type 0} (P : A → Type 0) (a : A) (xs : List A) → All P xs → In a xs → P a
In-All P a (x ∷ xs) h (inl same) = subst P (sym same) h.0
In-All P a (x ∷ xs) h (inr i) = In-All P a xs h.1 i
In-All P a [] h i = absurd i

-- The first `PrePrepare` of a well-typed log has a block.
pub pre_prepare_block :
    (i : PbftMessageInfo) (log : PbftLog) (p : ParsedMessage)
    → All IsWellTyped log.messages
    → get_one_msg i PbftMessageType.pre_prepare log ≡ some p
    → HasBlock p
pre_prepare_block i log p w h =
    let found = get_one_msg_lem i PbftMessageType.pre_prepare log p h in
    has_block (In-All IsWellTyped p log.messages w found.0) found.1
  where
    has_block :
        IsWellTyped p → (info p).msg_type ≡ type_name PbftMessageType.pre_prepare → HasBlock p
    has_block (inl vc) e = absurd (differ (type_name_injective _ _ (sym e ∙ vc)))
      where
        differ : PbftMessageType.pre_prepare ≡ PbftMessageType.view_change → ⊥
        differ same = cc
    has_block (inr b) e = b
