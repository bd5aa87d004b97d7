-- ===== src/Log/Seals.antt =====
-- The consensus seals of the log: stored for a block, kept for the committed block, and read back.
use sawtooth_pbft.Common.{
  if◌then◌else◌, Bool-cases, filter, In, ◌==◌, ==_refl, nat_eq, string_eq, Bytes, bytes_eq, ℕ, ◌≡◌,
  refl, subst, inl, inr, Bool, false, List, [], ◌∷◌, ◌++◌, arith,
}
use sawtooth_pbft.Protos.{PbftSeal, block_eq, info_eq, message_eq, seal_eq, view_change_eq}
use sawtooth_pbft.MessageType.{type_eq}
use sawtooth_pbft.Error.{PbftError, ok, err}
use sawtooth_pbft.ParsedMessage.{parsed_eq}
use sawtooth_pbft.State.{phase_eq}
use sawtooth_pbft.Log.{
  PbftSealEntry, entry_eq, contains, insert, PbftLog, add_consensus_seal, get_consensus_seal,
  garbage_collect,
}
use sawtooth_pbft.Log.Sets.{contains_iff}
use sawtooth_pbft.Log.Queries.{In-filter}

-- No seal of the block is stored.
abbrev pub HasNoSeal : Bytes → PbftLog → Type 0
HasNoSeal id log = filter (λ (e : PbftSealEntry). e.block_id == id) log.seals ≡ []

filter-append :
    {A : Type 0} (p : A → Bool) (xs ys : List A) → filter p (xs ++ ys) ≡ filter p xs ++ filter p ys
filter-append p [] ys = refl
filter-append p (x ∷ xs) ys = ground (arith, filter-append p xs ys)

module _ (id : Bytes) (seq : ℕ) (s : PbftSeal) (log : PbftLog) (h : HasNoSeal id log) where
  abbrev new_entry : PbftSealEntry
  new_entry = record { block_id = id; seq_num = seq; seal = s }

  not_stored : contains new_entry log.seals ≡ false
  not_stored = elim (Bool-cases (contains new_entry log.seals)) [
    | inl old ↦ absurd (
        subst (In new_entry) h (
          (In-filter (λ e. e.block_id == id) new_entry log.seals).1
            ((contains_iff new_entry log.seals).0 old, ==_refl id)))
    | inr new ↦ new
  ]

  collected_seals :
      (current : ℕ)
      → (garbage_collect current id (add_consensus_seal id seq s log)).seals ≡ new_entry ∷ []
  unfolding garbage_collect add_consensus_seal insert
  collected_seals current = rw (
    not_stored,
    filter-append (λ (e : PbftSealEntry). e.block_id == id) log.seals (new_entry ∷ []),
    h,
    ==_refl id,
  )

-- A seal that is stored for a block without one survives the garbage collection after that block's
-- commit as the only seal: `get_consensus_seal` returns it for its sequence number, and reports for any
-- other that none was found.
pub get_consensus_seal_collected :
    (id : Bytes) (seq current other : ℕ) (s : PbftSeal) (log : PbftLog)
    → HasNoSeal id log
    → let log' = garbage_collect current id (add_consensus_seal id seq s log) in
      (get_consensus_seal seq log' ≡ ok s)
      × (get_consensus_seal other log'
          ≡ (if other == seq then ok s else err (PbftError.wrong_num_seals 1 0)))
unfolding get_consensus_seal
get_consensus_seal_collected id seq current other s log h =
    let kept = collected_seals id seq s log h current in
    (rw kept (ground arith), rw kept (ground arith))
