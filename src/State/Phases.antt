-- ===== src/State/Phases.antt =====
-- The order of the phases, and the messages that each of them sends.
use sawtooth_pbft.Common.{
  Bool-cases, ◌==◌, nat_eq, string_eq, bytes_eq, ◌≡◌, refl, sym, subst, ◌⊎◌, inl, inr, false, none,
  some, arith,
}
use sawtooth_pbft.Protos.{block_eq, info_eq, message_eq, seal_eq, view_change_eq}
use sawtooth_pbft.MessageType.{type_eq}
use sawtooth_pbft.ParsedMessage.{parsed_eq}
use sawtooth_pbft.State.{PbftPhase, phase_beq_iff, phase_eq, PbftState, next_phase, switch_phase}

-- The cycle of the phases, as docs/source/algorithm-operation.rst goes through it.
pub data Follows : PbftPhase → PbftPhase → Type 0 where
  prepares : Follows PbftPhase.pre_preparing PbftPhase.preparing
  checks : Follows PbftPhase.preparing PbftPhase.checking
  commits : Follows PbftPhase.checking PbftPhase.committing
  finishes : Follows PbftPhase.committing PbftPhase.finished
  restarts : Follows PbftPhase.finished PbftPhase.pre_preparing

next_phase-Follows : (p : PbftPhase) → Follows p (next_phase p)
unfolding next_phase
next_phase-Follows PbftPhase.pre_preparing = prepares
next_phase-Follows PbftPhase.preparing = checks
next_phase-Follows PbftPhase.checking = commits
next_phase-Follows PbftPhase.committing = finishes
next_phase-Follows PbftPhase.finished = restarts

Follows-next : {p q : PbftPhase} → Follows p q → q ≡ next_phase p
unfolding next_phase
Follows-next prepares = refl
Follows-next checks = refl
Follows-next commits = refl
Follows-next finishes = refl
Follows-next restarts = refl

-- `switch_phase` goes to the wanted phase and returns it exactly if that phase follows the current one
-- in the cycle; otherwise it returns nothing and the state stays. No other field ever changes.
pub switch_phase_lem :
    (q : PbftPhase) (s : PbftState)
    → (Follows s.phase q × (switch_phase q s ≡ (record s { phase = q }, some q)))
      ⊎ (¬ Follows s.phase q × (switch_phase q s ≡ (s, none)))
unfolding switch_phase
switch_phase_lem q s = elim (Bool-cases (q == next_phase s.phase)) [
  | inl e ↦ inl (
    subst (Follows s.phase) (sym ((phase_beq_iff q (next_phase s.phase)).0 e))
        (next_phase-Follows s.phase),
    rw e,
  )
  | inr e ↦ inr (λ h. wrong e (Follows-next h), rw e)
]
  where
    wrong : (q == next_phase s.phase) ≡ false → q ≡ next_phase s.phase → ⊥
    wrong e h = ground (arith, (phase_beq_iff q (next_phase s.phase)).1 h)

-- Five switches from any phase, each to the phase that follows, come back to that phase.
pub next_phase_cycle :
    (p : PbftPhase) → next_phase (next_phase (next_phase (next_phase (next_phase p)))) ≡ p
unfolding next_phase
next_phase_cycle PbftPhase.pre_preparing = refl
next_phase_cycle _ = refl
