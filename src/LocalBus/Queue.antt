-- ===== src/LocalBus/Queue.antt =====
-- internal/bus/bus_local.go: the loop of `dispatch` over a queue, which serves the subscriptions in
-- turn.
use native.Mathlib.Nat.{add-zero, zero-add, suc-add}
use native.Mathlib.Decide.{ℕ_discrete}
use livekit_psrpc.Prelude.{
  ℕ, zero, suc, ◌+◌, ◌-◌, ◌≤◌, ◌<◌, ◌≡◌, ◌≢◌, ◌⊎◌, inl, inr, refl, sym, ap, ◌∙◌, [], ◌∷◌, Option,
  none, some, arith, length, get_or, leb, ◌==◌, nat_equality, if◌then◌else◌, Bool-cases,
}
use livekit_psrpc.LocalBus.Subscription.{LocalSubscription}
use livekit_psrpc.LocalBus.SubList.{Slots, next_slot}

module _ {B : Type 0} where
  abbrev pub IsLive : Slots B → ℕ → Type 0
  IsLive subs i = (s : LocalSubscription B) × (get_or subs i none ≡ some s)

  abbrev pub IsNil : Slots B → ℕ → Type 0
  IsNil subs i = get_or subs i none ≡ none

  -- The slot that a round of the loop looks at.
  abbrev pub wrapped : Slots B → ℕ → ℕ
  wrapped subs next = if leb (length subs) next then 0 else next

  wrapped-lt : (subs : Slots B) (next : ℕ) → next < length subs → wrapped subs next ≡ next
  wrapped-lt subs next h = ground arith

  step_live :
      (subs : Slots B) (fuel start next : ℕ)
      → IsLive subs (wrapped subs next)
      → next_slot (suc fuel) start next subs
        ≡ some (wrapped subs next + 1, some (wrapped subs next))
  unfolding next_slot
  step_live subs fuel start next (s, found) = rw (found, next_slot)

  step_nil :
      (subs : Slots B) (fuel start next : ℕ)
      → IsNil subs (wrapped subs next)
      → wrapped subs next + 1 ≢ start
      → next_slot (suc fuel) start next subs ≡ next_slot fuel start (wrapped subs next + 1) subs
  unfolding next_slot
  step_nil subs fuel start next e ne = elim (Bool-cases (wrapped subs next + 1 == start)) [
    | inl same ↦ absurd (ne ((nat_equality.decides _ _).0 same))
    | inr other ↦ rw (e, next_slot) (rw other)
  ]

  step_stop :
      (subs : Slots B) (fuel start next : ℕ)
      → IsNil subs (wrapped subs next)
      → wrapped subs next + 1 ≡ start
      → next_slot (suc fuel) start next subs ≡ some (wrapped subs next + 1, none)
  unfolding next_slot
  step_stop subs fuel start next e same = rw (e, next_slot) (rw ((nat_equality.decides _ _).1 same))

  -- From a slot up to the first live one behind it the loop goes straight, if it does not meet its
  -- start before.
  straight :
      (subs : Slots B) (i fuel start next : ℕ)
      → next ≤ i
      → i < length subs
      → i < next + fuel
      → IsLive subs i
      → ((m : ℕ) → next ≤ m → m < i → IsNil subs m × (m + 1 ≢ start))
      → next_slot fuel start next subs ≡ some (i + 1, some i)
  straight subs i zero start next h hi hf found nils = absurd (omega arith)
  straight subs i (suc fuel) start next h hi hf found nils =
      let same = wrapped-lt subs next (omega arith) in
      elim (ℕ_discrete next i) [
        | yes e ↦ step_live subs fuel start next (rw (same, e) found) ∙ rw (same, e)
        | no ne ↦
            let (nil, going) = nils next (omega arith) (omega arith) in
            step_nil subs fuel start next (rw same nil) (rw same going)
            ∙ rw same (
                straight subs i fuel start (next + 1) (omega arith) hi (omega arith) found
                  (λ m a b. nils m (omega arith) b))
      ]

  abbrev pub AllNil : Slots B → ℕ → ℕ → Type 0
  AllNil subs a b = (m : ℕ) → a ≤ m → m < b → IsNil subs m

  -- A round of the loop at the slot that it looks at.
  round : ℕ → ℕ → Slots B → ℕ → Option (ℕ × Option ℕ)
  unfolding next_slot
  round fuel start subs i = elim (get_or subs i none) [
    | some s ↦ some (i + 1, some i)
    | none ↦ if i + 1 == start then some (i + 1, none) else next_slot fuel start (i + 1) subs
  ]

  next_slot-round :
      (subs : Slots B) (fuel start next : ℕ)
      → next_slot (suc fuel) start next subs ≡ round fuel start subs (wrapped subs next)
  unfolding next_slot round
  next_slot-round subs fuel start next = refl

  wrapped-end : (subs : Slots B) → 0 < length subs → wrapped subs (length subs) ≡ wrapped subs 0
  wrapped-end subs h = ground arith

  wrap_first :
      (subs : Slots B) (fuel start : ℕ)
      → 0 < length subs
      → next_slot fuel start (length subs) subs ≡ next_slot fuel start 0 subs
  unfolding next_slot
  wrap_first subs zero start h = refl
  wrap_first subs (suc fuel) start h =
      next_slot-round subs fuel start (length subs)
      ∙ ap (round fuel start subs) (wrapped-end subs h)
      ∙ sym (next_slot-round subs fuel start 0)

  -- Nil slots are passed one by one.
  march :
      (subs : Slots B) (k fuel start next : ℕ)
      → next + k ≤ length subs
      → ((m : ℕ) → next ≤ m → m < next + k → IsNil subs m × (m + 1 ≢ start))
      → next_slot (k + fuel) start next subs ≡ next_slot fuel start (next + k) subs
  march subs zero fuel start next h nils = simp (add-zero, zero-add)
  march subs (suc k) fuel start next h nils =
      let same = wrapped-lt subs next (omega arith) in
      let (nil, going) = nils next (omega arith) (omega arith) in
      rw suc-add (
        step_nil subs (k + fuel) start next (rw same nil) (rw same going)
        ∙ rw (same, shift next k)
            (march subs k fuel start (next + 1) (omega arith)
              (λ m a b. nils m (omega arith) (omega arith))))
    where
      shift : (n j : ℕ) → n + suc j ≡ n + 1 + j
      shift n j = omega arith

  -- The slot whose turn it is: the first live one from `next` on, or from the first slot on if none is
  -- left behind `next`.
  abbrev pub InTurn : Slots B → ℕ → ℕ → Type 0
  InTurn subs next i =
      IsLive subs i
      × (((wrapped subs next ≤ i) × AllNil subs (wrapped subs next) i)
          ⊎ ((i < wrapped subs next)
              × AllNil subs (wrapped subs next) (length subs)
              × AllNil subs 0 i))

  live-lt : (subs : Slots B) (i : ℕ) → IsLive subs i → i < length subs
  live-lt [] i (s, e) = cc
  live-lt (x ∷ subs) zero h = omega arith
  live-lt (x ∷ subs) (suc i) h = omega (arith, live-lt subs i h)

  -- From the end of the slots the loop goes on at the first one.
  around :
      (subs : Slots B) (fuel start next : ℕ)
      → next < length subs
      → start ≡ next
      → AllNil subs next (length subs)
      → next_slot (length subs - next + fuel) start next subs ≡ next_slot fuel start 0 subs
  around subs fuel start next h e nils =
      march subs (length subs - next) fuel start next (omega arith)
        (λ m a b. (nils m a (omega arith), omega arith))
      ∙ rw (meet (length subs) next h) (wrap_first subs fuel start (omega arith))
    where
      meet : (n j : ℕ) → j < n → j + (n - j) ≡ n
      meet n j h = omega arith

  whole : (subs : Slots B) (j : ℕ) → j ≤ length subs → length subs ≡ length subs - j + j
  whole subs j h = omega arith

  -- The loop serves the slot whose turn it is, within as many rounds as there are slots.
  pub next_slot-InTurn :
      (subs : Slots B) (next i : ℕ)
      → next ≤ length subs
      → InTurn subs next i
      → next_slot (length subs) next next subs ≡ some (i + 1, some i)
  next_slot-InTurn subs next i h (found, inl (a, nils)) =
      let here = live-lt subs i found in
      elim (ℕ_discrete next (length subs)) [
        | yes e ↦ rw e (
            wrap_first subs (length subs) (length subs) (omega arith)
            ∙ straight subs i (length subs) (length subs) 0 (omega arith) here (omega arith) found
                (λ m p q. (nils m (ground arith) q, omega arith)))
        | no ne ↦
            let same = wrapped-lt subs next (omega arith) in
            straight subs i (length subs) next next (omega arith) here (omega arith) found
              (λ m p q. (nils m (omega arith) q, omega arith))
      ]
  next_slot-InTurn subs next i h (found, inr (a, behind, nils)) =
      let before : next < length subs = ground arith in
      let same = wrapped-lt subs next before in
      rw (whole subs next h) (
        around subs next next next before refl (λ m p q. behind m (omega arith) q)
        ∙ straight subs i next next 0 (omega arith) (live-lt subs i found) (omega arith) found
            (λ m p q. (nils m p q, omega arith)))

  -- A round over nil slots ends where it began.
  round_off :
      (subs : Slots B) (next : ℕ)
      → 0 < next
      → next ≤ length subs
      → AllNil subs 0 (length subs)
      → next_slot next next 0 subs ≡ some (next, none)
  round_off subs zero pos h nils = elim pos [ ]
  round_off subs (suc k) pos h nils =
      let same = wrapped-lt subs k (omega arith) in
      ap (λ f. next_slot f (suc k) 0 subs) (one_more k)
      ∙ march subs k 1 (suc k) 0 (omega arith) (λ m a b. (nils m a (omega arith), omega arith))
      ∙ ap (λ n. next_slot 1 (suc k) n subs) (zero-add k)
      ∙ step_stop subs 0 (suc k) k (rw same (nils k (omega arith) (omega arith)))
          (rw same (sym (one_more k)))
      ∙ rw (same, ← one_more k)
    where
      one_more : (n : ℕ) → suc n ≡ n + 1
      one_more n = omega arith

  -- With no subscription left, a loop that does not start at 0 goes round once and delivers nothing.
  pub next_slot-AllNil :
      (subs : Slots B) (next : ℕ)
      → 0 < next
      → next ≤ length subs
      → AllNil subs 0 (length subs)
      → next_slot (length subs) next next subs ≡ some (next, none)
  next_slot-AllNil subs next pos h nils = elim (ℕ_discrete next (length subs)) [
    | yes e ↦ rw e (
        wrap_first subs (length subs) (length subs) (omega arith)
        ∙ round_off subs (length subs) (omega arith) (omega arith) nils)
    | no ne ↦ rw (whole subs next h) (
        around subs next next next (omega arith) refl (λ m p q. nils m (omega arith) q)
        ∙ round_off subs next pos h nils)
  ]

  -- One that starts at 0 never ends.
  pub next_slot-diverges :
      (subs : Slots B) (fuel next : ℕ)
      → 0 < length subs
      → AllNil subs 0 (length subs)
      → next_slot fuel 0 next subs ≡ none
  unfolding next_slot
  next_slot-diverges subs zero next h nils = refl
  next_slot-diverges subs (suc fuel) next h nils =
      step_nil subs fuel 0 next (nils (wrapped subs next) (omega arith) (ground arith))
        (omega arith)
      ∙ next_slot-diverges subs fuel (wrapped subs next + 1) h nils

  -- More rounds than are needed change nothing.
  pub next_slot_more :
      (fuel fuel' start next : ℕ) (subs : Slots B) (r : ℕ × Option ℕ)
      → next_slot fuel start next subs ≡ some r
      → fuel ≤ fuel'
      → next_slot fuel' start next subs ≡ some r
  unfolding next_slot
  next_slot_more zero fuel' start next subs r e h = cc
  next_slot_more (suc fuel) zero start next subs r e h = absurd (omega arith)
  next_slot_more (suc fuel) (suc fuel') start next subs r e h =
      let rest = next_slot_more fuel fuel' start (wrapped subs next + 1) subs r in ground arith
