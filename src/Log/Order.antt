-- ===== src/Log/Order.antt =====
-- A `HashSet` is iterated in no particular order. The counts do not depend on it, so the answers of
-- `check_prepared` and `check_committable` do not either, as long as the log is well-typed and no two
-- `PrePrepare` messages of one view and sequence number carry different blocks.
use mathlib.Core.List.{Permᴰ}
use sawtooth_pbft.Common.{
  length, first, filter, All, In, ℕ, ◌≡◌, refl, sym, ◌∙◌, subst, ◌↔◌, inl, inr, Bool, true, ◌&&◌,
  none, List, [], ◌∷◌, arith,
}
use sawtooth_pbft.Protos.{PbftBlock, PbftMessageInfo}
use sawtooth_pbft.MessageType.{PbftMessageType}
use sawtooth_pbft.Error.{ok}
use sawtooth_pbft.ParsedMessage.{ParsedMessage, get_block}
use sawtooth_pbft.Log.{PbftLog, is_type_seq_view, get_one_msg, check_committable}
use sawtooth_pbft.Log.Queries.{count, first-filter, block_is, IsWellTyped}
use sawtooth_pbft.Log.Committable.{
  PrePrepared, PrePrepared-cases, check_committable-none, check_committable-some,
}

count-Permᴰ :
    (p : ParsedMessage → Bool) {xs ys : List ParsedMessage} → Permᴰ xs ys → count p xs ≡ count p ys
count-Permᴰ p Permᴰ.nil = refl
count-Permᴰ p (Permᴰ.cons e r) = ground (arith, count-Permᴰ p r)
count-Permᴰ p (Permᴰ.swap e d) = ground arith
count-Permᴰ p (Permᴰ.trans r s) = count-Permᴰ p r ∙ count-Permᴰ p s

In-Permᴰ : (a : ParsedMessage) {xs ys : List ParsedMessage} → Permᴰ xs ys → In a ys → In a xs
In-Permᴰ a Permᴰ.nil h = h
In-Permᴰ a (Permᴰ.cons e r) (inl d) = inl (d ∙ sym e)
In-Permᴰ a (Permᴰ.cons e r) (inr h) = inr (In-Permᴰ a r h)
In-Permᴰ a (Permᴰ.swap e d) (inl c) = inr (inl (c ∙ sym d))
In-Permᴰ a (Permᴰ.swap e d) (inr (inl c)) = inl (c ∙ sym e)
In-Permᴰ a (Permᴰ.swap e d) (inr (inr h)) = inr (inr h)
In-Permᴰ a (Permᴰ.trans r s) h = In-Permᴰ a r (In-Permᴰ a s h)

All-Permᴰ :
    (P : ParsedMessage → Type 0) {xs ys : List ParsedMessage} → Permᴰ xs ys → All P xs → All P ys
All-Permᴰ P Permᴰ.nil h = h
All-Permᴰ P (Permᴰ.cons e r) h = (subst P e h.0, All-Permᴰ P r h.1)
All-Permᴰ P (Permᴰ.swap e d) h = (subst P d h.1.0, (subst P e h.0, h.1.1))
All-Permᴰ P (Permᴰ.trans r s) h = All-Permᴰ P s (All-Permᴰ P r h)

-- A message is a `PrePrepare` of a view and sequence number.
abbrev pub is_pre_prepare_at : ℕ → ℕ → ParsedMessage → Bool
is_pre_prepare_at seq view m = is_type_seq_view PbftMessageType.pre_prepare seq view m

-- No two `PrePrepare` messages of one view and sequence number carry different blocks.
abbrev pub Agrees : List ParsedMessage → Type 0
Agrees ms =
    (m k : ParsedMessage) (seq view : ℕ) (b c : PbftBlock)
    → In m ms
    → In k ms
    → is_pre_prepare_at seq view m ≡ true
    → is_pre_prepare_at seq view k ≡ true
    → get_block m ≡ ok b
    → get_block k ≡ ok c
    → b ≡ c

count_zero :
    (p : ParsedMessage → Bool) (xs : List ParsedMessage)
    → (first (filter p xs) ≡ none) ↔ (count p xs ≡ 0)
count_zero p xs = go (filter p xs)
  where
    go : (ys : List ParsedMessage) → (first ys ≡ none) ↔ (length ys ≡ 0)
    go [] = (λ h. refl, λ h. refl)
    go (y ∷ ys) = (λ h. cc, λ h. absurd (omega (arith, h)))

module _ (i : PbftMessageInfo) (f : ℕ) (log : PbftLog) (ms : List ParsedMessage)
    (w : All IsWellTyped log.messages) (agreed : Agrees log.messages)
    (r : Permᴰ log.messages ms) where
  -- On both lists the first `PrePrepare` carries the same block, or there is none.
  PrePrepared-Permᴰ :
      (b c : PbftBlock)
      → PrePrepared i log b
      → PrePrepared i (record log { messages = ms }) c
      → b ≡ c
  unfolding is_type_seq_view get_one_msg
  PrePrepared-Permᴰ b c pp qq =
      let p =
        first-filter (is_pre_prepare_at i.seq_num i.view) pp.first_msg log.messages pp.is_first in
      let q = first-filter (is_pre_prepare_at i.seq_num i.view) qq.first_msg ms qq.is_first in
      agreed pp.first_msg qq.first_msg i.seq_num i.view b c p.0 (In-Permᴰ qq.first_msg r q.0) p.1
        q.1 pp.carries qq.carries

  none-Permᴰ :
      (get_one_msg i PbftMessageType.pre_prepare log ≡ none)
      ↔ (get_one_msg i PbftMessageType.pre_prepare (record log { messages = ms }) ≡ none)
  unfolding get_one_msg
  none-Permᴰ =
      let same = count-Permᴰ (is_pre_prepare_at i.seq_num i.view) r in
      let here = count_zero (is_pre_prepare_at i.seq_num i.view) log.messages in
      let there = count_zero (is_pre_prepare_at i.seq_num i.view) ms in
      (λ h. there.1 (sym same ∙ here.0 h), λ h. here.1 (same ∙ there.0 h))

  -- If each logged message is a `ViewChange` or carries a block, and no two logged `PrePrepare` messages
  -- of one view and sequence number carry different blocks, then the order in which the set of messages
  -- is iterated has no influence on `check_committable`.
  pub check_committable-Permᴰ :
      check_committable i f log ≡ check_committable i f (record log { messages = ms })
  check_committable-Permᴰ = elim (PrePrepared-cases i f log w) [
    | inl e ↦
        check_committable-none i f log w e
        ∙ sym (
            check_committable-none i f (record log { messages = ms }) (All-Permᴰ IsWellTyped r w)
              (none-Permᴰ.0 e))
    | inr (b, pp) ↦
        elim (PrePrepared-cases i f (record log { messages = ms }) (All-Permᴰ IsWellTyped r w)) [
          | inl e ↦
              check_committable-none i f log w (none-Permᴰ.1 e)
              ∙ sym (
                  check_committable-none i f (record log { messages = ms })
                    (All-Permᴰ IsWellTyped r w) e)
          | inr (c, qq) ↦ both b c pp qq
        ]
  ]
    where
      both :
          (b c : PbftBlock)
          → PrePrepared i log b
          → PrePrepared i (record log { messages = ms }) c
          → check_committable i f log ≡ check_committable i f (record log { messages = ms })
      both b c pp qq = rw (
        check_committable-some i f log w b pp,
        check_committable-some i f (record log { messages = ms }) (All-Permᴰ IsWellTyped r w) c qq,
        PrePrepared-Permᴰ b c pp qq,
        count-Permᴰ
            (λ m. is_type_seq_view PbftMessageType.prepare i.seq_num i.view m && block_is c m) r,
        count-Permᴰ
            (λ m. is_type_seq_view PbftMessageType.commit i.seq_num i.view m && block_is c m) r,
      )
