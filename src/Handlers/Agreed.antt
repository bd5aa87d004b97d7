-- ===== src/Handlers/Agreed.antt =====
-- The agreement of the log: no two `PrePrepare` messages with different blocks at one view and sequence
-- number.
use sawtooth_pbft.Common.{
  Bool-cases, first, filter, In, nat_eq, string_eq, bytes_eq, ℕ, ◌≡◌, refl, sym, ap, ◌∙◌, ◌≢◌, ◌⊎◌,
  inl, inr, Bool, true, false, none, List, [], ◌∷◌,
}
use sawtooth_pbft.Protos.{PbftBlock, block_eq, info_eq, message_eq, seal_eq, view_change_eq}
use sawtooth_pbft.MessageType.{PbftMessageType, type_eq, from_str, from_str-type_name}
use sawtooth_pbft.Error.{Outcome, ok, err, panic, out_of_fuel}
use sawtooth_pbft.ParsedMessage.{ParsedMessage, parsed_eq, info, get_block}
use sawtooth_pbft.State.{phase_eq}
use sawtooth_pbft.Log.{entry_eq, insert}
use sawtooth_pbft.Log.Sets.{In-insert, IsDistinct, insert-IsDistinct}
use sawtooth_pbft.Log.Queries.{In-filter}
use sawtooth_pbft.Log.Order.{is_pre_prepare_at, Agrees}
use sawtooth_pbft.Handlers.Agreement.{is_pre_prepare_name, insert_other-Agrees}

-- The messages of the log: each once, and at most one block pre-prepared at a view and sequence
-- number.
pub record LogAgrees (ms : List ParsedMessage) : Type 0 where
  pub distinct : IsDistinct ms
  pub agreed : Agrees ms

pub LogAgrees-nil : LogAgrees []
LogAgrees-nil = record { distinct = tt; agreed = λ m k seq view b c im. absurd im }

-- A message whose type is not `PrePrepare`.
pub not_pre_prepare :
    (msg : ParsedMessage)
    → from_str (info msg).msg_type ≢ PbftMessageType.pre_prepare
    → (seq view : ℕ) → is_pre_prepare_at seq view msg ≡ false
not_pre_prepare msg ne seq view = elim (Bool-cases (is_pre_prepare_at seq view msg)) [
  | inl e ↦ absurd (
      ne (
        ap from_str (is_pre_prepare_name seq view msg e).0
        ∙ from_str-type_name PbftMessageType.pre_prepare))
  | inr e ↦ e
]

pub insert_other-LogAgrees :
    (msg : ParsedMessage) (ms : List ParsedMessage)
    → from_str (info msg).msg_type ≢ PbftMessageType.pre_prepare
    → LogAgrees ms
    → LogAgrees (insert msg ms)
insert_other-LogAgrees msg ms ne v = record {
  distinct = insert-IsDistinct msg ms v.distinct;
  agreed = insert_other-Agrees msg ms (not_pre_prepare msg ne) v.agreed;
}

-- A message without a block does not disturb the agreement.
pub insert_blockless-LogAgrees :
    (msg : ParsedMessage) (ms : List ParsedMessage)
    → ((b : PbftBlock) → get_block msg ≢ ok b)
    → LogAgrees ms
    → LogAgrees (insert msg ms)
insert_blockless-LogAgrees msg ms none_there v = record {
  distinct = insert-IsDistinct msg ms v.distinct;
  agreed = λ m k seq view b c im ik pm pk bm bk.
      v.agreed m k seq view b c (old m b ((In-insert msg m ms).0 im) bm)
        (old k c ((In-insert msg k ms).0 ik) bk) pm pk bm bk;
}
  where
    old : (x : ParsedMessage) (b : PbftBlock) → (x ≡ msg) ⊎ In x ms → get_block x ≡ ok b → In x ms
    old x b (inl e) g = absurd (none_there b (sym (ap get_block e) ∙ g))
    old x b (inr i) g = i

pub first-none :
    (p : ParsedMessage → Bool) (k : ParsedMessage) (xs : List ParsedMessage)
    → first (filter p xs) ≡ none
    → In k xs
    → p k ≡ true
    → ⊥
first-none p k xs h i e = none_in (filter p xs) h ((In-filter p k xs).1 (i, e))
  where
    none_in : (ys : List ParsedMessage) → first ys ≡ none → In k ys → ⊥
    none_in [] h i = i
    none_in (y ∷ ys) h i = cc

-- The result of a lookup of a block: there, or not.
pub block_cases :
    (msg : ParsedMessage)
    → ((b : PbftBlock) × (get_block msg ≡ ok b)) ⊎ ((b : PbftBlock) → get_block msg ≢ ok b)
block_cases msg = go (get_block msg) refl
  where
    go :
        (r : Outcome PbftBlock)
        → get_block msg ≡ r
        → ((b : PbftBlock) × (get_block msg ≡ ok b)) ⊎ ((b : PbftBlock) → get_block msg ≢ ok b)
    go (ok b) e = inl (b, e)
    go (err x) e = inr (λ b d. cc)
    go panic e = inr (λ b d. cc)
    go out_of_fuel e = inr (λ b d. cc)
