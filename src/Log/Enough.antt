-- ===== src/Log/Enough.antt =====
-- `get_enough_messages` against its description.
use sawtooth_pbft.Common.{
  leb, leb→le, le→leb, Option-cases, length, filter, In, ℕ, ◌≤◌, ◌≡◌, refl, sym, ap, ◌∙◌, subst,
  ◌≢◌, ◌↔◌, ◌⊎◌, inl, inr, none, some, List, [],
}
use sawtooth_pbft.MessageType.{PbftMessageType}
use sawtooth_pbft.ParsedMessage.{ParsedMessage}
use sawtooth_pbft.Log.{PbftLog, is_vote, group_by_view, highest, large_groups, get_enough_messages}
use sawtooth_pbft.Log.Queries.{In-filter}
use sawtooth_pbft.Log.Groups.{
  Groups, group_at, has_view, group_at-group_by_view, group_by_view-IsGrouped, In-group,
  group_at-In, highest-none, highest-IsHighest,
}

-- The votes of a type and sequence number in one view.
abbrev pub votes_in_view : PbftMessageType → ℕ → ℕ → PbftLog → List ParsedMessage
votes_in_view t seq v log = filter (has_view v) (filter (is_vote t seq) log.messages)

-- A view has votes, and enough of them.
abbrev pub HasEnough : PbftMessageType → ℕ → ℕ → PbftLog → ℕ → Type 0
HasEnough t seq minimum log v =
    (votes_in_view t seq v log ≢ []) × (minimum ≤ length (votes_in_view t seq v log))

module _ (t : PbftMessageType) (seq minimum : ℕ) (log : PbftLog) where
  abbrev groups : Groups
  groups = group_by_view (filter (is_vote t seq) log.messages)

  votes_group : (v : ℕ) → group_at v groups ≡ votes_in_view t seq v log
  votes_group v = group_at-group_by_view v (filter (is_vote t seq) log.messages)

  -- The large groups are the views with enough votes.
  large_group_iff :
      (v : ℕ) (g : List ParsedMessage)
      → In (v, g) (large_groups minimum groups)
        ↔ ((g ≡ votes_in_view t seq v log) × HasEnough t seq minimum log v)
  unfolding large_groups
  large_group_iff v g = (λ i. there i, λ h. back h.0 h.1.0 h.1.1)
    where
      there :
          In (v, g) (filter (λ e. leb minimum (length e.1)) groups)
          → (g ≡ votes_in_view t seq v log) × HasEnough t seq minimum log v
      there i =
          let hit =
            (In-filter (λ (e : ℕ × List ParsedMessage). leb minimum (length e.1)) (v, g) groups).0
              i in
          let entry =
            In-group v g groups (group_by_view-IsGrouped (filter (is_vote t seq) log.messages))
              hit.0 in
          let same : g ≡ votes_in_view t seq v log = sym entry.0 ∙ votes_group v in
          (same, rw (← same) (entry.1, leb→le minimum (length g) hit.1))

      back :
          g ≡ votes_in_view t seq v log
          → votes_in_view t seq v log ≢ []
          → minimum ≤ length (votes_in_view t seq v log)
          → In (v, g) (filter (λ e. leb minimum (length e.1)) groups)
      back e ne large =
          (In-filter (λ (e : ℕ × List ParsedMessage). leb minimum (length e.1)) (v, g) groups).1 (
            rw (e, ← votes_group v) (group_at-In v groups (rw (votes_group v) ne)),
            rw e (le→leb minimum (length (votes_in_view t seq v log)) large),
          )

  -- `get_enough_messages` returns the votes of the highest view that has any and has at least the
  -- minimum, without the node's own; it returns nothing only if no view has enough.
  pub get_enough_messages_lem :
      ((v : ℕ) × (get_enough_messages t seq minimum log ≡ some (votes_in_view t seq v log))
        × HasEnough t seq minimum log v
        × ((w : ℕ) → HasEnough t seq minimum log w → w ≤ v))
      ⊎ ((get_enough_messages t seq minimum log ≡ none)
          × ((w : ℕ) → ¬ HasEnough t seq minimum log w))
  unfolding get_enough_messages
  get_enough_messages_lem = elim (Option-cases (highest (large_groups minimum groups))) [
    | inl e ↦ inr (rw e, λ w h. nothing e w h)
    | inr ((v, g), e) ↦ inl (found v g e)
  ]
    where
      nothing :
          highest (large_groups minimum groups) ≡ none → (w : ℕ) → HasEnough t seq minimum log w → ⊥
      nothing e w h =
          subst (In (w, votes_in_view t seq w log)) (highest-none (large_groups minimum groups) e)
            ((large_group_iff w (votes_in_view t seq w log)).1 (refl, h))

      found :
          (v : ℕ) (g : List ParsedMessage)
          → highest (large_groups minimum groups) ≡ some (v, g)
          → (v : ℕ) × (get_enough_messages t seq minimum log ≡ some (votes_in_view t seq v log))
            × HasEnough t seq minimum log v
            × ((w : ℕ) → HasEnough t seq minimum log w → w ≤ v)
      found v g e =
          let top = highest-IsHighest (large_groups minimum groups) (v, g) e in
          let entry = (large_group_iff v g).0 top.0 in
          (
            v,
            rw e (ap some entry.0),
            entry.1,
            λ w h.
                top.1 (w, votes_in_view t seq w log)
                  ((large_group_iff w (votes_in_view t seq w log)).1 (refl, h)),
          )
