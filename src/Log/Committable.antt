-- ===== src/Log/Committable.antt =====
-- `check_prepared` and `check_committable` against their description: a `PrePrepare` and two quorums
-- of messages with its block.
use sawtooth_pbft.Common.{
  leb, le→leb, Option-cases, All, ℕ, ◌≤◌, ◌≡◌, sym, ◌∙◌, ◌≢◌, ◌↔◌, ◌⊎◌, inl, inr, Bool, true, false,
  ◌&&◌, none, some, arith,
}
use sawtooth_pbft.Protos.{PbftBlock, PbftMessageInfo}
use sawtooth_pbft.MessageType.{PbftMessageType}
use sawtooth_pbft.Error.{ok}
use sawtooth_pbft.ParsedMessage.{ParsedMessage, get_block}
use sawtooth_pbft.Log.{PbftLog, get_one_msg, quorum, check_prepared, has_commits, check_committable}
use sawtooth_pbft.Log.Queries.{
  IsWellTyped, votes, log_has_required_msgs_lem, get_one_msg_lem, pre_prepare_block,
}

-- A `PrePrepare` of the view and sequence number, with its block.
pub record PrePrepared (i : PbftMessageInfo) (log : PbftLog) (b : PbftBlock) : Type 0 where
  pub first_msg : ParsedMessage
  pub is_first : get_one_msg i PbftMessageType.pre_prepare log ≡ some first_msg
  pub carries : get_block first_msg ≡ ok b

-- Enough messages of a type for a block.
abbrev pub HasQuorum : PbftMessageType → PbftMessageInfo → ℕ → PbftLog → PbftBlock → Type 0
HasQuorum t i f log b = quorum f ≤ votes t i.seq_num i.view b log

prepare_ne : PbftMessageType.prepare ≢ PbftMessageType.view_change
prepare_ne h = cc

commit_ne : PbftMessageType.commit ≢ PbftMessageType.view_change
commit_ne h = cc

module _ (i : PbftMessageInfo) (f : ℕ) (log : PbftLog) (w : All IsWellTyped log.messages) where
  -- With the first `PrePrepare` known, the two checks compare counts.
  check_prepared_some :
      (b : PbftBlock)
      → PrePrepared i log b
      → check_prepared i f log
        ≡ ok (leb (quorum f) (votes PbftMessageType.prepare i.seq_num i.view b log))
  unfolding check_prepared
  check_prepared_some b pp =
      let p = pp.first_msg in
      let hit = get_one_msg_lem i PbftMessageType.pre_prepare log p pp.is_first in
      rw (
        pp.is_first,
        check_prepared,
        log_has_required_msgs_lem PbftMessageType.prepare p b (quorum f) log prepare_ne w
            pp.carries,
        hit.2,
        hit.3,
      )

  has_commits_some :
      (b : PbftBlock)
      → PrePrepared i log b
      → has_commits i f log
        ≡ ok (leb (quorum f) (votes PbftMessageType.commit i.seq_num i.view b log))
  unfolding has_commits
  has_commits_some b pp =
      let p = pp.first_msg in
      let hit = get_one_msg_lem i PbftMessageType.pre_prepare log p pp.is_first in
      rw (
        pp.is_first,
        log_has_required_msgs_lem PbftMessageType.commit p b (quorum f) log commit_ne w pp.carries,
        hit.2,
        hit.3,
      )

  pub PrePrepared-cases :
      (get_one_msg i PbftMessageType.pre_prepare log ≡ none)
      ⊎ ((b : PbftBlock) × PrePrepared i log b)
  PrePrepared-cases = elim (Option-cases (get_one_msg i PbftMessageType.pre_prepare log)) [
    | inl e ↦ inl e
    | inr (p, e) ↦
        let has = pre_prepare_block i log p w e in
        inr (has.0, record { first_msg = p; is_first = e; carries = has.1 })
  ]

  pub check_committable-none :
      get_one_msg i PbftMessageType.pre_prepare log ≡ none → check_committable i f log ≡ ok false
  unfolding check_committable check_prepared
  check_committable-none e = rw (e, check_prepared)

  pub check_committable-some :
      (b : PbftBlock)
      → PrePrepared i log b
      → check_committable i f log
        ≡ ok (
            leb (quorum f) (votes PbftMessageType.prepare i.seq_num i.view b log)
            && leb (quorum f) (votes PbftMessageType.commit i.seq_num i.view b log))
  unfolding check_committable
  check_committable-some b pp = rw (check_prepared_some b pp, has_commits_some b pp) (ground arith)

  -- On a well-typed log `check_committable` neither fails nor panics, and answers `true` exactly if
  -- there is a `PrePrepare` of the message's view and sequence number, and the block of the first one
  -- is in at least `2f + 1` logged `Prepare` and in at least `2f + 1` logged `Commit` messages of that
  -- view and sequence number.
  pub check_committable_iff :
      ((r : Bool) × (check_committable i f log ≡ ok r))
      × ((check_committable i f log ≡ ok true) ↔ (
          (b : PbftBlock) × PrePrepared i log b
          × HasQuorum PbftMessageType.prepare i f log b
          × HasQuorum PbftMessageType.commit i f log b))
  check_committable_iff = (total, (λ h. found h, λ h. counted h.0 h.1 h.2 h.3))
    where
      counted :
          (b : PbftBlock)
          → PrePrepared i log b
          → HasQuorum PbftMessageType.prepare i f log b
          → HasQuorum PbftMessageType.commit i f log b
          → check_committable i f log ≡ ok true
      counted b pp q r = rw (check_committable-some b pp, le→leb _ _ q, le→leb _ _ r)

      total : (r : Bool) × (check_committable i f log ≡ ok r)
      total = elim PrePrepared-cases [
        | inl e ↦ (false, check_committable-none e)
        | inr (b, pp) ↦ (_, check_committable-some b pp)
      ]

      found :
          check_committable i f log ≡ ok true
          → (b : PbftBlock) × PrePrepared i log b
            × HasQuorum PbftMessageType.prepare i f log b
            × HasQuorum PbftMessageType.commit i f log b
      found h = elim PrePrepared-cases [
        | inl e ↦ absurd (not_false (sym (check_committable-none e) ∙ h))
        | inr (b, pp) ↦ both b pp (sym (check_committable-some b pp) ∙ h)
      ]
        where
          not_false : ok false ≡ ok true → ⊥
          not_false e = cc

          both :
              (b : PbftBlock)
              → PrePrepared i log b
              → ok (
                  leb (quorum f) (votes PbftMessageType.prepare i.seq_num i.view b log)
                  && leb (quorum f) (votes PbftMessageType.commit i.seq_num i.view b log))
                ≡ ok true
              → (b : PbftBlock) × PrePrepared i log b
                × HasQuorum PbftMessageType.prepare i f log b
                × HasQuorum PbftMessageType.commit i f log b
          both b pp e = (b, pp, ground arith, ground arith)
