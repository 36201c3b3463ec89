-- ===== src/LocalBus/Slots.antt =====
-- internal/bus/bus_local.go: facts on the slots of a list.
use livekit_psrpc.Prelude.{
  ℕ, zero, suc, ◌+◌, ◌<◌, ◌≡◌, ◌≢◌, ◌⊎◌, inl, inr, refl, ap, subst, Bool, true, [], ◌∷◌, ◌++◌,
  Option, none, some, arith, length, get_elem?, get_or, set, Bool-cases, Option-cases, lt→ltb,
}
use livekit_psrpc.LocalBus.Subscription.{LocalSubscription, accepts, write}
use livekit_psrpc.LocalBus.SubList.{Slots, free_slot, write_all}

module _ {B : Type 0} where
  -- How many slots hold a subscription.
  abbrev pub live : Slots B → ℕ
  live [] = 0
  live (none ∷ subs) = live subs
  live (some s ∷ subs) = suc (live subs)

  -- What a search from an index finds: the first nil slot, or that there is none.
  abbrev FirstFree : ℕ → Slots B → Option ℕ → Type 0
  FirstFree k subs none = live subs ≡ length subs
  FirstFree k subs (some i) =
      (j : ℕ) × (i ≡ k + j)
      × (get_elem? subs j ≡ some none)
      × ((m : ℕ) → m < j → (s : LocalSubscription B) × (get_elem? subs m ≡ some (some s)))

  pub live-set-some :
      (subs : Slots B) (i : ℕ) (s : LocalSubscription B)
      → get_elem? subs i ≡ some none
      → live (set subs i (some s)) ≡ live subs + 1
  live-set-some [] i s h = cc
  live-set-some (none ∷ subs) zero s h = omega arith
  live-set-some (some t ∷ subs) zero s h = ground arith
  live-set-some (none ∷ subs) (suc i) s h = live-set-some subs i s h
  live-set-some (some t ∷ subs) (suc i) s h = omega (arith, live-set-some subs i s h)

  pub live-set_same :
      (subs : Slots B) (i : ℕ) (s t : LocalSubscription B)
      → get_or subs i none ≡ some t
      → live (set subs i (some s)) ≡ live subs
  live-set_same [] i s t h = cc
  live-set_same (none ∷ subs) zero s t h = cc
  live-set_same (some u ∷ subs) zero s t h = refl
  live-set_same (none ∷ subs) (suc i) s t h = live-set_same subs i s t h
  live-set_same (some u ∷ subs) (suc i) s t h = ap suc (live-set_same subs i s t h)

  pub live-set-none :
      (subs : Slots B) (i : ℕ) (t : LocalSubscription B)
      → get_or subs i none ≡ some t
      → live subs ≡ live (set subs i none) + 1
  live-set-none [] i t h = cc
  live-set-none (none ∷ subs) zero t h = cc
  live-set-none (some u ∷ subs) zero t h = omega arith
  live-set-none (none ∷ subs) (suc i) t h = live-set-none subs i t h
  live-set-none (some u ∷ subs) (suc i) t h = omega (arith, live-set-none subs i t h)

  pub live-append :
      (subs : Slots B) (s : LocalSubscription B) → live (subs ++ some s ∷ []) ≡ live subs + 1
  live-append [] s = omega arith
  live-append (none ∷ subs) s = live-append subs s
  live-append (some t ∷ subs) s = omega (arith, live-append subs s)

  pub free_slot-FirstFree : (k : ℕ) (subs : Slots B) → FirstFree k subs (free_slot k subs)
  unfolding free_slot
  free_slot-FirstFree k [] = refl
  free_slot-FirstFree k (none ∷ subs) = (0, omega arith, refl, λ m h. elim h [ ])
  free_slot-FirstFree k (some s ∷ subs) =
      shift (free_slot (suc k) subs) (free_slot-FirstFree (suc k) subs)
    where
      shift : (r : Option ℕ) → FirstFree (suc k) subs r → FirstFree k (some s ∷ subs) r
      shift none h = ap suc h
      shift (some i) (j, at, free, full) = (suc j, omega arith, free, below)
        where
          below :
              (m : ℕ)
              → m < suc j
              → (t : LocalSubscription B) × (get_elem? (some s ∷ subs) m ≡ some (some t))
          below zero h = (s, refl)
          below (suc m) h = full m (omega arith)

  pub get_elem?-append :
      (subs : Slots B) (x : Option (LocalSubscription B))
      → get_elem? (subs ++ x ∷ []) (length subs) ≡ some x
  get_elem?-append [] x = refl
  get_elem?-append (y ∷ subs) x = get_elem?-append subs x

  -- A write puts the message at the end of a channel with room, or is given up as the context is done.
  abbrev pub Written : B → LocalSubscription B → LocalSubscription B → Type 0
  Written b s t =
      ((t ≡ record s { messages = s.messages ++ b ∷ [] }) × (length s.messages < s.capacity))
      ⊎ ((t ≡ s) × (s.canceled ≡ true))

  -- A write that need not wait.
  abbrev pub IsReady : LocalSubscription B → Type 0
  IsReady s = (s.canceled ≡ true) ⊎ (length s.messages < s.capacity)

  pub write-Written :
      (pick : Bool) (b : B) (s t : LocalSubscription B) → write pick b s ≡ some t → Written b s t
  unfolding write
  write-Written pick b s t h = ground arith

  pub write-IsReady :
      (pick : Bool) (b : B) (s : LocalSubscription B)
      → IsReady s
      → (t : LocalSubscription B) × (write pick b s ≡ some t)
  unfolding write
  write-IsReady pick b s (inl done) = elim (Bool-cases (accepts pick s)) [
    | inl sent ↦ (record s { messages = s.messages ++ b ∷ [] }, rw sent)
    | inr dropped ↦ (s, rw (dropped, done))
  ]
  write-IsReady pick b s (inr room) = elim (Bool-cases (accepts pick s)) [
    | inl sent ↦ (record s { messages = s.messages ++ b ∷ [] }, rw sent)
    | inr dropped ↦ (s, ground (arith, lt→ltb _ _ room))
  ]

  -- Every subscription of the slots has had its write, and the nil slots are as they were.
  abbrev pub Delivered : B → Slots B → Slots B → Type 0
  Delivered b [] [] = Unit
  Delivered b (none ∷ subs) (none ∷ subs') = Delivered b subs subs'
  Delivered b (some s ∷ subs) (some t ∷ subs') = Written b s t × Delivered b subs subs'
  Delivered b _ _ = ⊥

  abbrev pub AreReady : Slots B → Type 0
  AreReady [] = Unit
  AreReady (none ∷ subs) = AreReady subs
  AreReady (some s ∷ subs) = IsReady s × AreReady subs

  pub write_all-Delivered :
      (pick : ℕ → Bool) (i : ℕ) (b : B) (subs subs' : Slots B)
      → write_all pick i b subs ≡ some subs'
      → Delivered b subs subs'
  unfolding write_all
  write_all-Delivered pick i b [] subs' h = subst (Delivered b []) {x = []} (ground arith) tt
  write_all-Delivered pick i b (none ∷ subs) subs' h =
      elim (Option-cases (write_all pick (suc i) b subs)) [
        | inl e ↦ ground arith
        | inr (rest, e) ↦
            subst (Delivered b (none ∷ subs)) {x = none ∷ rest} (ground arith)
              (write_all-Delivered pick (suc i) b subs rest e)
      ]
  write_all-Delivered pick i b (some s ∷ subs) subs' h =
      elim (Option-cases (write_all pick (suc i) b subs)) [
        | inl e ↦ ground arith
        | inr (rest, e) ↦ elim (Option-cases (write (pick i) b s)) [
          | inl f ↦ ground arith
          | inr (t, f) ↦
              subst (Delivered b (some s ∷ subs)) {x = some t ∷ rest} (ground arith)
                (write-Written (pick i) b s t f, write_all-Delivered pick (suc i) b subs rest e)
        ]
      ]

  -- With no subscription to wait for, the loop ends.
  pub write_all-AreReady :
      (pick : ℕ → Bool) (i : ℕ) (b : B) (subs : Slots B)
      → AreReady subs
      → (subs' : Slots B) × (write_all pick i b subs ≡ some subs')
  unfolding write_all
  write_all-AreReady pick i b [] h = ([], refl)
  write_all-AreReady pick i b (none ∷ subs) h =
      let (rest, e) = write_all-AreReady pick (suc i) b subs h in (none ∷ rest, ground arith)
  write_all-AreReady pick i b (some s ∷ subs) h =
      let (t, f) = write-IsReady (pick i) b s h.0 in
      let (rest, e) = write_all-AreReady pick (suc i) b subs h.1 in (some t ∷ rest, ground arith)

  pub live-Delivered :
      (b : B) (subs subs' : Slots B)
      → Delivered b subs subs'
      → (live subs' ≡ live subs) × (length subs' ≡ length subs)
  live-Delivered b [] [] h = (refl, refl)
  live-Delivered b (none ∷ subs) (none ∷ subs') h = ground (arith, live-Delivered b subs subs' h)
  live-Delivered b (some s ∷ subs) (some t ∷ subs') h =
      ground (arith, live-Delivered b subs subs' h.1)
  live-Delivered b [] (x ∷ subs') h = elim h [ ]
  live-Delivered b (none ∷ subs) [] h = elim h [ ]
  live-Delivered b (some s ∷ subs) [] h = elim h [ ]
  live-Delivered b (none ∷ subs) (some t ∷ subs') h = elim h [ ]
  live-Delivered b (some s ∷ subs) (none ∷ subs') h = elim h [ ]

  pub free_at : (subs : Slots B) (i : ℕ) → free_slot 0 subs ≡ some i → get_elem? subs i ≡ some none
  free_at subs i e =
      let (j, at, free, _) = subst (FirstFree 0 subs) e (free_slot-FirstFree 0 subs) in ground arith

  pub get_elem?-append_ne :
      (subs : Slots B) (x : Option (LocalSubscription B)) (j : ℕ)
      → j ≢ length subs
      → get_elem? (subs ++ x ∷ []) j ≡ get_elem? subs j
  get_elem?-append_ne [] x zero ne = absurd (ne refl)
  get_elem?-append_ne [] x (suc j) ne = refl
  get_elem?-append_ne (y ∷ subs) x zero ne = refl
  get_elem?-append_ne (y ∷ subs) x (suc j) ne = get_elem?-append_ne subs x j (λ e. ne (ap suc e))

  pub get_or_past : (subs : Slots B) → get_or subs (length subs) none ≡ none
  get_or_past [] = refl
  get_or_past (y ∷ subs) = get_or_past subs

  pub get_or_of_get_elem :
      (subs : Slots B) (i : ℕ) (x : Option (LocalSubscription B))
      → get_elem? subs i ≡ some x
      → get_or subs i none ≡ x
  get_or_of_get_elem [] i x e = cc
  get_or_of_get_elem (y ∷ subs) zero x e = cc
  get_or_of_get_elem (y ∷ subs) (suc i) x e = get_or_of_get_elem subs i x e

  pub get_elem-lt :
      (subs : Slots B) (i : ℕ) (x : Option (LocalSubscription B))
      → get_elem? subs i ≡ some x
      → i < length subs
  get_elem-lt [] i x e = cc
  get_elem-lt (y ∷ subs) zero x e = omega arith
  get_elem-lt (y ∷ subs) (suc i) x e = omega (arith, get_elem-lt subs i x e)

  pub live_or-lt :
      (subs : Slots B) (i : ℕ) (s : LocalSubscription B)
      → get_or subs i none ≡ some s
      → i < length subs
  live_or-lt [] i s e = cc
  live_or-lt (y ∷ subs) zero s e = omega arith
  live_or-lt (y ∷ subs) (suc i) s e = omega (arith, live_or-lt subs i s e)
