-- ===== src/Log/Groups.antt =====
-- The groups by view inside `get_enough_messages`.
use sawtooth_pbft.Common.{
  ltb, if◌then◌else◌, ltb→lt, Bool-cases, Option-cases, filter, In, ◌==◌, nat_eq, string_eq,
  bytes_eq, ℕ, ◌≤◌, ◌<◌, ◌≡◌, refl, sym, ap, subst, ◌≢◌, inl, inr, Bool, false, none, some, List,
  [], ◌∷◌, arith,
}
use sawtooth_pbft.Protos.{block_eq, info_eq, message_eq, seal_eq, view_change_eq}
use sawtooth_pbft.MessageType.{type_eq}
use sawtooth_pbft.ParsedMessage.{ParsedMessage, parsed_eq, info}
use sawtooth_pbft.State.{phase_eq}
use sawtooth_pbft.Log.{entry_eq, add_to_group, group_by_view, higher, highest}

abbrev pub Groups : Type 0
Groups = List (ℕ × List ParsedMessage)

-- The messages under a view, none if it is no key.
abbrev pub group_at : ℕ → Groups → List ParsedMessage
group_at v [] = []
group_at v ((w, g) ∷ gs) = if w == v then g else group_at v gs

abbrev pub has_view : ℕ → ParsedMessage → Bool
has_view v m = (info m).view == v

abbrev HasNoKey : ℕ → Groups → Type 0
HasNoKey v [] = Unit
HasNoKey v ((w, g) ∷ gs) = (w ≢ v) × HasNoKey v gs

-- The keys are distinct, and no group is empty.
abbrev pub IsGrouped : Groups → Type 0
IsGrouped [] = Unit
IsGrouped ((v, g) ∷ gs) = HasNoKey v gs × (g ≢ []) × IsGrouped gs

group_at-add_to_group :
    (v : ℕ) (m : ParsedMessage) (gs : Groups)
    → group_at v (add_to_group m gs) ≡ (if has_view v m then m ∷ group_at v gs else group_at v gs)
unfolding add_to_group
group_at-add_to_group v m [] = ground arith
group_at-add_to_group v m ((w, g) ∷ gs) = ground (arith, group_at-add_to_group v m gs)

pub group_at-group_by_view :
    (v : ℕ) (ms : List ParsedMessage) → group_at v (group_by_view ms) ≡ filter (has_view v) ms
unfolding group_by_view
group_at-group_by_view v [] = refl
group_at-group_by_view v (m ∷ ms) =
    ground (arith, group_at-add_to_group v m (group_by_view ms), group_at-group_by_view v ms)

HasNoKey-add_to_group :
    (v : ℕ) (m : ParsedMessage) (gs : Groups)
    → (info m).view ≢ v
    → HasNoKey v gs
    → HasNoKey v (add_to_group m gs)
unfolding add_to_group
HasNoKey-add_to_group v m [] ne h = (ne, tt)
HasNoKey-add_to_group v m ((w, g) ∷ gs) ne h = ground (arith, HasNoKey-add_to_group v m gs ne h.1)

add_to_group-IsGrouped :
    (m : ParsedMessage) (gs : Groups) → IsGrouped gs → IsGrouped (add_to_group m gs)
unfolding add_to_group
add_to_group-IsGrouped m [] h = (tt, (λ e. cc), tt)
add_to_group-IsGrouped m ((w, g) ∷ gs) h =
    ground (arith, add_to_group-IsGrouped m gs h.2, HasNoKey-add_to_group w m gs)

pub group_by_view-IsGrouped : (ms : List ParsedMessage) → IsGrouped (group_by_view ms)
unfolding group_by_view
group_by_view-IsGrouped [] = tt
group_by_view-IsGrouped (m ∷ ms) =
    add_to_group-IsGrouped m (group_by_view ms) (group_by_view-IsGrouped ms)

no_key : (v : ℕ) (g : List ParsedMessage) (gs : Groups) → HasNoKey v gs → In (v, g) gs → ⊥
no_key v g [] h i = i
no_key v g ((w, k) ∷ gs) h (inl e) = h.0 (ap (λ (x : ℕ × List ParsedMessage). x.0) (sym e))
no_key v g ((w, k) ∷ gs) h (inr i) = no_key v g gs h.1 i

-- An entry is the group of its key, and not empty.
pub In-group :
    (v : ℕ) (g : List ParsedMessage) (gs : Groups)
    → IsGrouped gs
    → In (v, g) gs
    → (group_at v gs ≡ g) × (g ≢ [])
In-group v g ((w, k) ∷ gs) h (inl e) =
    ground (
      arith,
      ap (λ (x : ℕ × List ParsedMessage). x.0) e,
      ap (λ (x : ℕ × List ParsedMessage). x.1) e,
    )
In-group v g ((w, k) ∷ gs) h (inr i) = ground (
  arith,
  In-group v g gs h.2 i,
  λ (e : w ≡ v). no_key v g gs (subst (λ x. HasNoKey x gs) e h.0) i,
)
In-group v g [] h i = absurd i

-- A group that is not empty is an entry.
pub group_at-In : (v : ℕ) (gs : Groups) → group_at v gs ≢ [] → In (v, group_at v gs) gs
group_at-In v [] h = absurd (h refl)
group_at-In v ((w, g) ∷ gs) h = ground (arith, group_at-In v gs)

pub highest-none : (es : Groups) → highest es ≡ none → es ≡ []
unfolding highest
highest-none [] h = refl
highest-none (e ∷ es) h = cc

-- The entry is one of the list, and no key of the list is greater.
abbrev pub IsHighest : ℕ × List ParsedMessage → Groups → Type 0
IsHighest e es = In e es × ((x : ℕ × List ParsedMessage) → In x es → x.0 ≤ e.0)

IsHighest-cons :
    (v w : ℕ) (g k : List ParsedMessage) (es : Groups)
    → IsHighest (w, k) es
    → IsHighest (higher (v, g) (some (w, k))) ((v, g) ∷ es)
unfolding higher
IsHighest-cons v w g k es h = elim (Bool-cases (ltb w v)) [
  | inl lt ↦
      subst (λ x. IsHighest x ((v, g) ∷ es)) (sym (ap (λ c. if c then (v, g) else (w, k)) lt))
        (inl refl, λ x i. above (ltb→lt w v lt) x i)
  | inr ge ↦
      subst (λ x. IsHighest x ((v, g) ∷ es)) (sym (ap (λ c. if c then (v, g) else (w, k)) ge))
        (inr h.0, λ x i. below ge x i)
]
  where
    above : w < v → (x : ℕ × List ParsedMessage) → In x ((v, g) ∷ es) → x.0 ≤ v
    above lt x (inl e) = omega (arith, ap (λ (y : ℕ × List ParsedMessage). y.0) e)
    above lt x (inr i) = omega (arith, h.1 x i)

    below : ltb w v ≡ false → (x : ℕ × List ParsedMessage) → In x ((v, g) ∷ es) → x.0 ≤ w
    below ge x (inl e) = ground (arith, ap (λ (y : ℕ × List ParsedMessage). y.0) e)
    below ge x (inr i) = h.1 x i

pub highest-IsHighest :
    (es : Groups) (e : ℕ × List ParsedMessage) → highest es ≡ some e → IsHighest e es
unfolding highest
highest-IsHighest [] e h = cc
highest-IsHighest ((v, g) ∷ es) e h = elim (Option-cases (highest es)) [
  | inl empty ↦ alone empty
  | inr ((w, k), found) ↦
      subst (λ x. IsHighest x ((v, g) ∷ es)) (same w k found)
        (IsHighest-cons v w g k es (highest-IsHighest es (w, k) found))
]
  where
    alone : highest es ≡ none → IsHighest e ((v, g) ∷ es)
    alone empty =
        let first_one : e ≡ (v, g) = ground (arith, empty, h) in
        rw (first_one, highest-none es empty) (inl refl, λ x i. only x i)
      where
        only : (x : ℕ × List ParsedMessage) → In x ((v, g) ∷ []) → x.0 ≤ v
        only x (inl e) = omega (arith, ap (λ (y : ℕ × List ParsedMessage). y.0) e)
        only x (inr i) = absurd i

    same :
        (w : ℕ) (k : List ParsedMessage)
        → highest es ≡ some (w, k)
        → higher (v, g) (some (w, k)) ≡ e
    same w k found = ground (arith, found, h)
