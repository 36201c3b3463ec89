-- ===== src/Redis/Sync.antt =====
-- internal/bus/bus_redis.go: the channels that Redis has and those that the bus wants.
use livekit_psrpc.Prelude.{
  ◌≡◌, sym, ◌∙◌, subst, String, Bool, true, false, not, ◌&&◌, ◌||◌, List, [], ◌++◌, ◌==◌,
  string_equality, elem, arith, if◌then◌else◌, inl, inr, Bool-cases,
}
use livekit_psrpc.Redis.State.{Worker, asleep, busy, looping, calling, RedisBus, desired}
use livekit_psrpc.Redis.Steps.{keep}
use livekit_psrpc.Redis.Worker.{end_round}
use livekit_psrpc.Redis.Sets.{elem-append, elem-keep}
use livekit_psrpc.Redis.Touches.{Touches, keeps, marks}
use livekit_psrpc.Redis.Moves.{
  Moves, touched, published_first, published_next, pushed, woken, rotated, began, drained,
  popped_exec, popped_reconcile, rounds_done, round_begun, round_ended, executed, lock_moved, rests,
}

-- Whether Redis has the channel once the calls that are under way have succeeded.
abbrev pub intended : Worker → List String → String → Bool
intended (calling sub unsub) current c = (elem c sub || elem c current) && not (elem c unsub)
intended asleep current c = elem c current
intended busy current c = elem c current
intended looping current c = elem c current

elem-append_none :
    (c : String) (xs ys : List String)
    → elem c (xs ++ ys) ≡ false
    → (elem c xs ≡ false) × (elem c ys ≡ false)
elem-append_none c xs ys h = let e = elem-append c xs ys in ground arith

-- A round with an error marks its channels again, and one without one has the intended effect.
end_intended :
    (sub_err unsub_err : Bool) (sub unsub current dirty : List String) (c : String)
    → elem c ((if unsub_err then unsub else []) ++ (if sub_err then sub else []) ++ dirty) ≡ false
    → let added = if sub_err then current else sub ++ current in
      (elem c dirty ≡ false)
      × (elem c (if unsub_err then added else keep (λ x. not (elem x unsub)) added)
          ≡ ((elem c sub || elem c current) && not (elem c unsub)))
end_intended true true sub unsub current dirty c h =
    let e = elem-append c (unsub ++ sub) dirty in let f = elem-append c unsub sub in ground arith
end_intended true false sub unsub current dirty c h =
    let f = elem-append c sub dirty in
    let k = elem-keep (λ x. not (elem x unsub)) c current in ground arith
end_intended false true sub unsub current dirty c h =
    let (out, clean) = elem-append_none c (unsub ++ []) dirty h in
    let k = elem-append c unsub [] in let g = elem-append c sub current in (clean, (ground arith))
end_intended false false sub unsub current dirty c h =
    let g = elem-append c sub current in
    let k = elem-keep (λ x. not (elem x unsub)) c (sub ++ current) in ground arith

module _ {B : Type 0} where
  -- A channel that is not dirty is, or is about to be, in Redis just when somebody wants it.
  abbrev pub Synced : RedisBus B → Type 0
  Synced r = (c : String) → elem c r.dirty ≡ false → intended r.worker r.current c ≡ desired r c

  touched-Synced : (r r' : RedisBus B) → Touches r r' → Synced r → Synced r'
  touched-Synced r _ (keeps subs queues id same) h c clean = h c clean ∙ sym (same c)
  touched-Synced r _ (marks ch subs queues id same) h c clean = elim (Bool-cases (ch == c)) [
    | inl hit ↦ ground arith
    | inr miss ↦ h c (ground arith) ∙ sym (same c miss)
  ]

  begin-Synced :
      (r : RedisBus B)
      → Synced r
      → r.worker ≡ looping
      → (c : String)
      → intended
          (calling
            (keep (λ x. not (elem x r.current) && desired r x) r.dirty)
            (keep (λ x. elem x r.current && not (desired r x)) r.dirty))
          r.current
          c
        ≡ desired r c
  begin-Synced r h w c =
      let e = elem-keep (λ x. not (elem x r.current) && desired r x) c r.dirty in
      let f = elem-keep (λ x. elem x r.current && not (desired r x)) c r.dirty in
      elim (Bool-cases (elem c r.dirty)) [
        | inl dirty ↦ rw (e, f, dirty) (ground arith)
        | inr clean ↦
            let g : elem c r.current ≡ desired r c = rw w at (h c clean) in
            rw (e, f, clean) (ground arith)
      ]

  end-Synced :
      (sub_err unsub_err : Bool) (sub unsub : List String) (r : RedisBus B)
      → Synced r
      → r.worker ≡ calling sub unsub
      → Synced (end_round sub_err unsub_err sub unsub r)
  unfolding end_round
  end-Synced sub_err unsub_err sub unsub r h w c clean =
      let (clean', e) = end_intended sub_err unsub_err sub unsub r.current r.dirty c clean in
      e ∙ subst (λ x. intended x r.current c ≡ desired r c) w (h c clean')

  pub Moves-Synced : (r r' : RedisBus B) → Moves r r' → Synced r → Synced r'
  Moves-Synced r r' (rests (touched t)) h = touched-Synced r r' t h
  Moves-Synced r r' (rests (round_begun w)) h = λ c clean. begin-Synced r h w c
  Moves-Synced r r' (rests (round_ended sub_err unsub_err sub unsub w)) h =
      end-Synced sub_err unsub_err sub unsub r h w
  Moves-Synced r r' (rests (began w)) h =
      λ c clean. subst (λ x. intended x r.current c ≡ desired r c) w (h c clean)
  Moves-Synced r r' (rests (drained w e)) h =
      λ c clean. subst (λ x. intended x r.current c ≡ desired r c) w (h c clean)
  Moves-Synced r r' (rests (popped_reconcile ops w e)) h =
      λ c clean. subst (λ x. intended x r.current c ≡ desired r c) w (h c clean)
  Moves-Synced r r' (rests (rounds_done w e)) h =
      λ c clean. subst (λ x. intended x r.current c ≡ desired r c) w (h c clean)
  Moves-Synced r r' (published_first c b e) h = h
  Moves-Synced r r' (published_next c b e) h = h
  Moves-Synced r r' (rests (pushed op callers e)) h = h
  Moves-Synced r r' (rests woken) h = h
  Moves-Synced r r' (rests (rotated op callers e)) h = h
  Moves-Synced r r' (rests (popped_exec c ops w e)) h = h
  Moves-Synced r r' (rests (lock_moved b)) h = h
  Moves-Synced r r' (executed failed c p e) h = h
