-- ===== src/LocalBus/Turns.antt =====
-- internal/bus/bus_local.go: `dispatch` of a list of subscriptions, on each kind of list.
use native.Mathlib.Decide.{ℕ_discrete, dec_lt}
use livekit_psrpc.Prelude.{
  ℕ, zero, suc, ◌+◌, ◌-◌, ◌≤◌, ◌<◌, ◌≡◌, ◌⊎◌, inl, inr, refl, subst, Bool, true, false, [], ◌∷◌,
  none, some, arith, length, get_or, set, nat_equality, Option-cases,
}
use livekit_psrpc.LocalBus.Subscription.{LocalSubscription, write}
use livekit_psrpc.LocalBus.SubList.{Slots, LocalSubList, write_slot, dispatch}
use livekit_psrpc.LocalBus.Slots.{
  live, Written, IsReady, AreReady, Delivered, write-Written, write-IsReady, write_all-Delivered,
  write_all-AreReady,
}
use livekit_psrpc.LocalBus.Queue.{
  IsLive, IsNil, AllNil, wrapped, InTurn, next_slot-InTurn, next_slot-AllNil, next_slot-diverges,
  next_slot_more,
}

module _ {B : Type 0} where
  live-zero : (subs : Slots B) → live subs ≡ 0 → (b : ℕ) → AllNil subs 0 b
  live-zero [] h b m p q = refl
  live-zero (none ∷ subs) h b zero p q = refl
  live-zero (none ∷ subs) h b (suc m) p q = live-zero subs h (suc m) m (omega arith) (omega arith)
  live-zero (some s ∷ subs) h b m p q = absurd (omega arith)

  -- The first live slot of a range, if it has one.
  search_range :
      (subs : Slots B) (k from : ℕ)
      → AllNil subs from (from + k)
        ⊎ ((i : ℕ) × (from ≤ i) × (i < from + k) × IsLive subs i × AllNil subs from i)
  search_range subs zero from = inl (λ m p q. absurd (omega arith))
  search_range subs (suc k) from = elim (Option-cases (get_or subs from none)) [
    | inr (s, e) ↦ inr (from, omega arith, omega arith, (s, e), λ m p q. absurd (omega arith))
    | inl e ↦ elim (search_range subs k (from + 1)) [
      | inl nils ↦ inl (λ m p q. at_or_behind e m p (λ p'. nils m p' (omega arith)))
      | inr (i, a, c, found, nils) ↦
          inr (i, omega arith, omega arith, found, λ m p q. at_or_behind e m p (λ p'. nils m p' q))
    ]
  ]
    where
      at_or_behind :
          IsNil subs from → (m : ℕ) → from ≤ m → (from + 1 ≤ m → IsNil subs m) → IsNil subs m
      at_or_behind e m p rest = elim (ℕ_discrete from m) [
        | yes same ↦ rw (← same) e
        | no ne ↦ rest (omega arith)
      ]

  wrapped-le : (subs : Slots B) (next : ℕ) → next ≤ length subs → wrapped subs next ≤ length subs
  wrapped-le subs next h = ground arith

  some_live : (subs : Slots B) → AllNil subs 0 (length subs) → live subs ≡ 0
  some_live [] h = refl
  some_live (none ∷ subs) h = some_live subs (λ m p q. h (suc m) (omega arith) (omega arith))
  some_live (some s ∷ subs) h = cc (h 0 (omega arith) (omega arith))

  -- Among live slots there is one whose turn it is.
  in_turn :
      (subs : Slots B) (next : ℕ)
      → next ≤ length subs
      → 0 < live subs
      → (i : ℕ) × InTurn subs next i
  in_turn subs next h some_left =
      let w = wrapped subs next in
      elim (search_range subs (length subs - w) w) [
        | inr (i, a, c, found, nils) ↦ (i, (found, inl (a, nils)))
        | inl behind ↦ elim (search_range subs w 0) [
          | inr (i, a, c, found, nils) ↦ (
            i,
            (
              found,
              inr (
                omega arith,
                (λ m p q. behind m p (omega (arith, wrapped-le subs next h))),
                nils,
              ),
            ),
          )
          | inl before ↦ absurd (
              omega (
                arith,
                some_live subs (λ m p q. elim (dec_lt m w) [
                  | yes a ↦ before m p (omega arith)
                  | no b ↦ behind m (omega arith) (omega (arith, wrapped-le subs next h))
                ]),
              ))
        ]
      ]

  AreReady-at :
      (subs : Slots B) (i : ℕ) (s : LocalSubscription B)
      → AreReady subs
      → get_or subs i none ≡ some s
      → IsReady s
  AreReady-at [] i s h e = cc
  AreReady-at (none ∷ subs) zero s h e = cc
  AreReady-at (some t ∷ subs) zero s h e = subst IsReady {x = t} (ground arith) h.0
  AreReady-at (none ∷ subs) (suc i) s h e = AreReady-at subs i s h e
  AreReady-at (some t ∷ subs) (suc i) s h e = AreReady-at subs i s h.1 e

  write_slot_lem :
      (pick : Bool) (b : B) (i : ℕ) (subs : Slots B) (s t : LocalSubscription B)
      → get_or subs i none ≡ some s
      → write pick b s ≡ some t
      → write_slot pick b i subs ≡ some (set subs i (some t))
  unfolding write_slot
  write_slot_lem pick b i subs s t e f = rw (e, write_slot) (rw f)

  live-length : (subs : Slots B) → live subs ≤ length subs
  live-length [] = omega arith
  live-length (none ∷ subs) = omega (arith, live-length subs)
  live-length (some s ∷ subs) = omega (arith, live-length subs)

  -- A message to a list that is no queue is written to every subscription of the list, if none of
  -- them makes the call wait.
  pub dispatch_fanout :
      (pick : ℕ → Bool) (fuel : ℕ) (b : B) (l : LocalSubList B)
      → l.queue ≡ false
      → AreReady l.subs
      → (subs : Slots B) × (dispatch pick fuel b l ≡ some (record l { subs = subs }))
        × Delivered b l.subs subs
  unfolding dispatch
  dispatch_fanout pick fuel b l plain ready =
      let (subs, e) = write_all-AreReady pick 0 b l.subs ready in
      (subs, ground arith, write_all-Delivered pick 0 b l.subs subs e)

  -- A message to a queue with a subscription left is written to one of them, the one whose turn it
  -- is, and the turn passes on; as many rounds as there are slots are
  -- enough.
  pub dispatch-InTurn :
      (pick : ℕ → Bool) (fuel : ℕ) (b : B) (l : LocalSubList B)
      → length l.subs ≤ fuel
      → l.queue ≡ true
      → l.next ≤ length l.subs
      → 0 < live l.subs
      → AreReady l.subs
      → (i : ℕ) × (s t : LocalSubscription B) × InTurn l.subs l.next i
        × (get_or l.subs i none ≡ some s)
        × Written b s t
        × (dispatch pick fuel b l ≡ some (record l { subs = set l.subs i (some t); next = i + 1 }))
  unfolding dispatch
  dispatch-InTurn pick fuel b l enough queued h left ready =
      let (i, turn) = in_turn l.subs l.next h left in
      let (s, e) = turn.0 in
      let (t, f) = write-IsReady (pick i) b s (AreReady-at l.subs i s ready e) in
      (
        i,
        s,
        t,
        turn,
        e,
        write-Written (pick i) b s t f,
        ground (
          arith,
          next_slot_more (length l.subs) fuel l.next l.next l.subs (i + 1, some i)
              (next_slot-InTurn l.subs l.next i h turn) enough,
          write_slot_lem (pick i) b i l.subs s t e f,
          live-length l.subs,
        ),
      )

  -- A queue whose subscriptions are all closed makes the loop run for ever if it starts at slot 0,
  -- whatever the fuel: no number of rounds is enough.
  pub dispatch_diverges :
      (pick : ℕ → Bool) (fuel : ℕ) (b : B) (l : LocalSubList B)
      → l.queue ≡ true
      → l.next ≡ 0
      → 0 < length l.subs
      → live l.subs ≡ 0
      → dispatch pick fuel b l ≡ none
  unfolding dispatch
  dispatch_diverges pick fuel b l queued start some_slot closed =
      ground (
        arith,
        next_slot-diverges l.subs fuel 0 some_slot (live-zero l.subs closed (length l.subs)),
      )

  -- Started behind slot 0, the loop over closed subscriptions ends and delivers nothing.
  pub dispatch_dropped :
      (pick : ℕ → Bool) (fuel : ℕ) (b : B) (l : LocalSubList B)
      → length l.subs ≤ fuel
      → l.queue ≡ true
      → 0 < l.next
      → l.next ≤ length l.subs
      → live l.subs ≡ 0
      → dispatch pick fuel b l ≡ some l
  unfolding dispatch
  dispatch_dropped pick fuel b l enough queued pos h closed = ground (
    arith,
    next_slot_more (length l.subs) fuel l.next l.next l.subs (l.next, none)
        (next_slot-AllNil l.subs l.next pos h (live-zero l.subs closed (length l.subs))) enough,
  )
