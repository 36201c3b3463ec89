-- ===== src/Redis/Lock.antt =====
-- internal/bus/bus_redis.go: the lock that the readers of a queue take.
use livekit_psrpc.Prelude.{
  ◌≡◌, refl, sym, ◌∙◌, subst, ℕ, ◌≤◌, String, Bool, true, false, not, ◌&&◌, List, [], ◌∷◌, ◌==◌,
  nat_equality, string_equality, elem, inl, inr, Bool-cases, arith, Every,
}
use livekit_psrpc.Redis.Reader.{
  next_delay, read_delays, max_read_retry_interval, Read, got, ended, blocked, Locks, read,
  with_taken, read_each,
}

next_delay_bounds : (d : ℕ) → d ≤ 1000000000 → next_delay d ≤ 1000000000
unfolding next_delay
next_delay_bounds d h = ground arith

-- The delays between failed reads are at most the maximum, if the first one is.
pub read_delays_bounds :
    (d : ℕ) (fails : List Bool)
    → d ≤ max_read_retry_interval
    → Every (λ n. n ≤ max_read_retry_interval) (read_delays d fails)
unfolding read_delays
read_delays_bounds d [] h = tt
read_delays_bounds d (true ∷ fails) h =
    (h, read_delays_bounds (next_delay d) fails (next_delay_bounds d h))
read_delays_bounds d (false ∷ fails) h = read_delays_bounds 0 fails (omega arith)

abbrev pub distinct : List String → Bool
distinct [] = true
distinct (k ∷ ks) = let rest = distinct ks in not (elem k ks) && rest

module _ {B S : Type 0} (locks : Locks S) (hash : B → String) where
  abbrev Lasts : S → S → Type 0
  Lasts s s' = (o : String) → locks.held s o ≡ true → locks.held s' o ≡ true

  -- What a read has done to the locks: those that were held are, and that of its payload is new.
  abbrev Locked : S → S → Read B → Type 0
  Locked s s' ended = Lasts s s'
  Locked s s' blocked = Lasts s s'
  Locked s s' (got b msgs) =
      Lasts s s' × (locks.held s (hash b) ≡ false) × (locks.held s' (hash b) ≡ true)

  not_held : (s s' : S) (k : String) → Lasts s s' → locks.held s' k ≡ false → locks.held s k ≡ false
  not_held s s' k h e = elim (Bool-cases (locks.held s k)) [
    | inl was ↦ (let y = h k was in cc)
    | inr free ↦ free
  ]

  later : (s s' s'' : S) (r : Read B) → Lasts s s' → Locked s' s'' r → Locked s s'' r
  later s s' s'' ended h k = λ o x. k o (h o x)
  later s s' s'' blocked h k = λ o x. k o (h o x)
  later s s' s'' (got b msgs) h k = (λ o x. k.0 o (h o x), not_held s s' (hash b) h k.1, k.2)

  read-Locked :
      (s : S) (msgs : List B)
      → Locked s
          (read locks hash (λ n. true) false true s msgs).0
          (read locks hash (λ n. true) false true s msgs).1
  unfolding read
  read-Locked s [] = λ o h. h
  read-Locked s (b ∷ msgs) =
      let lasts = locks.lasts s (hash b) in
      elim (Bool-cases (locks.set_nx s (hash b)).1) [
        | inl was ↦ (let new = locks.acquires s (hash b) was in rw was (lasts, new.0, new.1))
        | inr denied ↦
            let rest = read-Locked (locks.set_nx s (hash b)).0 msgs in
            rw denied (later s _ _ _ lasts rest)
      ]

  -- A list without repetition, and without the locks that are held.
  abbrev Fresh : S → List String → Type 0
  Fresh s ks = (distinct ks ≡ true) × ((o : String) → locks.held s o ≡ true → elem o ks ≡ false)

  Fresh-earlier : (s s' : S) (ks : List String) → Lasts s s' → Fresh s' ks → Fresh s ks
  Fresh-earlier s s' ks h f = (f.0, λ o x. f.1 o (h o x))

  Fresh-cons :
      (s s' : S) (k : String) (ks : List String)
      → Lasts s s'
      → locks.held s k ≡ false
      → locks.held s' k ≡ true
      → Fresh s' ks
      → Fresh s (k ∷ ks)
  Fresh-cons s s' k ks h new now f = (
    ground (arith, f.0, f.1 k now),
    λ o x. elim (Bool-cases (k == o)) [
      | inl same ↦
          let y : locks.held s k ≡ true =
            subst (λ z. locks.held s z ≡ true) (sym ((string_equality.decides k o).0 same)) x in
          absurd (let both : true ≡ false = sym y ∙ new in cc)
      | inr other ↦ rw other (f.1 o (h o x))
    ],
  )

  with_taken-Fresh :
      (s s' : S) (r : Read B) (ks : List String)
      → Locked s s' r
      → Fresh s' ks
      → Fresh s (with_taken locks hash r ks)
  with_taken-Fresh s s' ended ks h f = Fresh-earlier s s' ks h f
  with_taken-Fresh s s' blocked ks h f = Fresh-earlier s s' ks h f
  with_taken-Fresh s s' (got b msgs) ks h f = Fresh-cons s s' (hash b) ks h.0 h.1 h.2 f

  read_each-Fresh : (backlogs : List (List B)) (s : S) → Fresh s (read_each locks hash s backlogs)
  unfolding read_each
  read_each-Fresh [] s = (refl, λ o h. refl)
  read_each-Fresh (msgs ∷ more) s =
      let (s', r) = read locks hash (λ n. true) false true s msgs in
      with_taken-Fresh s s' r _ (read-Locked s msgs) (read_each-Fresh more s')

  -- Reads of a queue one after the other, whatever messages each finds, return payloads with different
  -- hashes, while no lock expires.
  pub read_each-distinct :
      (s : S) (backlogs : List (List B)) → distinct (read_each locks hash s backlogs) ≡ true
  read_each-distinct s backlogs = (read_each-Fresh backlogs s).0
