-- ===== src/Handlers/Agreement.antt =====
-- The log's invariant, and that the `PrePrepare` handler keeps it: a node never accepts two
-- `PrePrepare` messages with different blocks at one view and sequence number.
use text.Mathlib.TextEquality.{eq_iff}
use sawtooth_pbft.Common.{
  Bool-cases, All, In, nat_eq, string_eq, bytes_eq, ℕ, ◌≡◌, sym, ap, ◌∙◌, ◌⊎◌, inl, inr, true,
  false, List, [], ◌∷◌, ◌++◌, arith,
}
use sawtooth_pbft.Protos.{PbftBlock, block_eq, info_eq, message_eq, seal_eq, view_change_eq}
use sawtooth_pbft.MessageType.{PbftMessageType, type_eq, type_name}
use sawtooth_pbft.Error.{ok}
use sawtooth_pbft.ParsedMessage.{ParsedMessage, parsed_eq, info, get_block}
use sawtooth_pbft.State.{phase_eq}
use sawtooth_pbft.Log.{entry_eq, contains, insert, is_type_seq_view}
use sawtooth_pbft.Log.Sets.{In-insert, IsDistinct}
use sawtooth_pbft.Log.Queries.{IsWellTyped}
use sawtooth_pbft.Log.Order.{is_pre_prepare_at, Agrees}
use sawtooth_pbft.Node.{PbftNode}

-- The messages of the log: each once, only `ViewChange` messages without a block, and at most one
-- block pre-prepared at a view and sequence number.
pub record LogIsValid (ms : List ParsedMessage) : Type 0 where
  pub typed : All IsWellTyped ms
  pub distinct : IsDistinct ms
  pub agreed : Agrees ms

abbrev pub NodeIsValid : PbftNode → Type 0
NodeIsValid n = LogIsValid n.msg_log.messages

pub All-insert :
    (P : ParsedMessage → Type 0) (msg : ParsedMessage) (ms : List ParsedMessage)
    → P msg
    → All P ms
    → All P (insert msg ms)
unfolding insert
All-insert P msg ms h k = elim (Bool-cases (contains msg ms)) [
  | inl old ↦ rw old k
  | inr new ↦ rw new (snoc ms k)
]
  where
    snoc : (xs : List ParsedMessage) → All P xs → All P (xs ++ msg ∷ [])
    snoc [] k = (h, tt)
    snoc (x ∷ xs) k = (k.0, snoc xs k.1)

pub is_pre_prepare_name :
    (seq view : ℕ) (m : ParsedMessage)
    → is_pre_prepare_at seq view m ≡ true
    → ((info m).msg_type ≡ type_name PbftMessageType.pre_prepare)
      × ((info m).seq_num ≡ seq)
      × ((info m).view ≡ view)
unfolding is_type_seq_view
is_pre_prepare_name seq view m h =
    ground (arith, eq_iff (info m).msg_type (type_name PbftMessageType.pre_prepare))

-- A message that is no `PrePrepare` does not disturb the agreement.
pub insert_other-Agrees :
    (msg : ParsedMessage) (ms : List ParsedMessage)
    → ((seq view : ℕ) → is_pre_prepare_at seq view msg ≡ false)
    → Agrees ms
    → Agrees (insert msg ms)
insert_other-Agrees msg ms other a m k seq view b c im ik pm pk bm bk =
    a m k seq view b c (old m im pm) (old k ik pk) pm pk bm bk
  where
    old : (x : ParsedMessage) → In x (insert msg ms) → is_pre_prepare_at seq view x ≡ true → In x ms
    old x i p = was ((In-insert msg x ms).0 i)
      where
        was : (x ≡ msg) ⊎ In x ms → In x ms
        was (inl e) = ground (arith, other seq view, p, e)
        was (inr h) = h

-- Nor does one whose block is that of each logged `PrePrepare` of its view and sequence number.
pub insert_same-Agrees :
    (msg : ParsedMessage) (ms : List ParsedMessage) (b : PbftBlock)
    → get_block msg ≡ ok b
    → ((k : ParsedMessage) (c : PbftBlock)
        → In k ms
        → is_pre_prepare_at (info msg).seq_num (info msg).view k ≡ true
        → get_block k ≡ ok c
        → c ≡ b)
    → Agrees ms
    → Agrees (insert msg ms)
insert_same-Agrees msg ms b h unopposed a m k seq view c d im ik pm pk bm bk =
    choose ((In-insert msg m ms).0 im) ((In-insert msg k ms).0 ik)
  where
    ok_injective : {x y : PbftBlock} → ok x ≡ ok y → x ≡ y
    ok_injective e = cc

    -- With the message itself on one side, both carry its block.
    block_at :
        (x : ParsedMessage) (e : PbftBlock)
        → ((x ≡ msg) ⊎ In x ms)
        → is_pre_prepare_at (info msg).seq_num (info msg).view x ≡ true
        → get_block x ≡ ok e
        → e ≡ b
    block_at x e (inl same) p q = ok_injective (sym q ∙ ap get_block same ∙ h)
    block_at x e (inr i) p q = unopposed x e i p q

    moved :
        (y x : ParsedMessage)
        → y ≡ msg
        → is_pre_prepare_at seq view y ≡ true
        → is_pre_prepare_at seq view x ≡ true
        → is_pre_prepare_at (info msg).seq_num (info msg).view x ≡ true
    moved y x same py px =
        let name = is_pre_prepare_name seq view y py in rw (← same, name.1, name.2) px

    choose : ((m ≡ msg) ⊎ In m ms) → ((k ≡ msg) ⊎ In k ms) → c ≡ d
    choose (inl e) ik' =
        block_at m c (inl e) (moved m m e pm pm) bm ∙ sym (block_at k d ik' (moved m k e pm pk) bk)
    choose (inr i) (inl e) =
        block_at m c (inr i) (moved k m e pk pm) bm
        ∙ sym (block_at k d (inl e) (moved k k e pk pk) bk)
    choose (inr i) (inr j) = a m k seq view c d i j pm pk bm bk
