-- ===== src/Redis/Owned.antt =====
-- internal/bus/bus_redis.go: the queues of `publishOps`, and who is to run them.
use livekit_psrpc.Prelude.{
  ◌≡◌, refl, sym, ◌∙◌, subst, ℕ, suc, ◌+◌, String, false, List, ◌∷◌, arith, inl, inr, Bool-cases,
  ◌==◌, string_equality,
}
use livekit_psrpc.Redis.State.{
  WriteOp, exec_publish, Stage, absent, waiting, checking, draining, sending, Post, RedisBus,
}
use livekit_psrpc.Redis.Steps.{update}
use livekit_psrpc.Redis.Worker.{end_round}
use livekit_psrpc.Redis.Touches.{Touches, keeps, marks}
use livekit_psrpc.Redis.Moves.{
  Moves, touched, published_first, published_next, pushed, woken, rotated, began, drained,
  popped_exec, popped_reconcile, rounds_done, round_begun, round_ended, executed, lock_moved, rests,
}
use livekit_psrpc.Redis.Counts.{
  count_exec, count_exec_self, count_exec_other, count_exec_moved, count_exec_rotated,
}
use livekit_psrpc.Redis.Kept.{Kept, waits, more-Kept, first-Kept, exec_post-Kept, popped-Kept}

update-at :
    {A : Type 0} (P : String → A → Type 0) (c : String) (a : A) (f : String → A)
    → P c a
    → ((o : String) → (c == o) ≡ false → P o (f o))
    → (o : String) → P o (update c a f o)
update-at P c a f h hs o = elim (Bool-cases (c == o)) [
  | inl same ↦ rw same (subst (λ x. P x a) ((string_equality.decides c o).0 same) h)
  | inr other ↦ rw other (hs o other)
]

module _ {B : Type 0} where
  abbrev Owners : List WriteOp → List WriteOp → (String → Post B) → Type 0
  Owners callers ops posts =
      (c : String) → count_exec c callers + count_exec c ops ≡ waits (posts c).stage

  -- Each queue keeps its messages, and one that waits for its goroutine has one operation on its way.
  pub record Owned (r : RedisBus B) : Type 0 where
    pub kept : (c : String) → Kept (r.posts c)
    pub owners : Owners r.callers r.ops r.posts

  touched-Owned : (r r' : RedisBus B) → Touches r r' → Owned r → Owned r'
  touched-Owned r _ (keeps subs queues id same) h = record { kept = h.kept; owners = h.owners }
  touched-Owned r _ (marks ch subs queues id same) h = record { kept = h.kept; owners = h.owners }

  update-Kept :
      (c : String) (p : Post B) (posts : String → Post B)
      → Kept p
      → ((o : String) → Kept (posts o))
      → (o : String) → Kept (update c p posts o)
  update-Kept c p posts h hs = update-at (λ x q. Kept q) c p posts h (λ o ne. hs o)

  first-Owners :
      (c : String) (p : Post B) (callers ops : List WriteOp) (posts : String → Post B)
      → (posts c).stage ≡ absent
      → p.stage ≡ waiting
      → Owners callers ops posts
      → Owners (exec_publish c ∷ callers) ops (update c p posts)
  first-Owners c p callers ops posts e f h =
      let none : count_exec c callers + count_exec c ops ≡ 0 = rw e at (h c) in
      update-at (λ o q. count_exec o (exec_publish c ∷ callers) + count_exec o ops ≡ waits q.stage)
        c p posts (rw f (omega (arith, none, count_exec_self c callers)))
        (λ o ne. omega (arith, h o, count_exec_other c o callers ne))

  same-Owners :
      (c : String) (p : Post B) (callers ops : List WriteOp) (posts : String → Post B)
      → waits p.stage ≡ waits (posts c).stage
      → Owners callers ops posts
      → Owners callers ops (update c p posts)
  same-Owners c p callers ops posts e h =
      update-at (λ o q. count_exec o callers + count_exec o ops ≡ waits q.stage) c p posts
        (h c ∙ sym e) (λ o ne. h o)

  is_waiting : (s : Stage B) (n : ℕ) → suc n ≡ waits s → (s ≡ waiting) × (n ≡ 0)
  is_waiting waiting n e = (refl, omega arith)
  is_waiting absent n e = absurd (omega arith)
  is_waiting checking n e = absurd (omega arith)
  is_waiting draining n e = absurd (omega arith)
  is_waiting (sending b) n e = absurd (omega arith)

  popped-Owners :
      (c : String) (callers ops : List WriteOp) (posts : String → Post B)
      → Owners callers (exec_publish c ∷ ops) posts
      → ((posts c).stage ≡ waiting)
        × Owners callers ops (update c (record (posts c) { stage = checking }) posts)
  popped-Owners c callers ops posts h =
      let (e, f) =
        is_waiting (posts c).stage (count_exec c callers + count_exec c ops)
          (omega (arith, h c, count_exec_self c ops)) in
      (
        e,
        update-at (λ o q. count_exec o callers + count_exec o ops ≡ waits q.stage) c
            (record (posts c) { stage = checking }) posts f
            (λ o ne. omega (arith, h o, count_exec_other c o ops ne)),
      )

  pub Moves-Owned : (r r' : RedisBus B) → Moves r r' → Owned r → Owned r'
  unfolding end_round
  Moves-Owned r r' (rests (touched t)) h = touched-Owned r r' t h
  Moves-Owned r r' (published_first c b e) h = record {
    kept = update-Kept c _ r.posts (first-Kept b (r.posts c) (h.kept c) e) h.kept;
    owners = first-Owners c _ r.callers r.ops r.posts e refl h.owners;
  }
  Moves-Owned r r' (published_next c b e) h = record {
    kept = update-Kept c _ r.posts (more-Kept b (r.posts c) (h.kept c) e) h.kept;
    owners = same-Owners c _ r.callers r.ops r.posts refl h.owners;
  }
  Moves-Owned r r' (rests (pushed op callers e)) h =
      let k = subst (λ x. Owners x r.ops r.posts) e h.owners in
      record { kept = h.kept; owners = λ c. sym (count_exec_moved c op callers r.ops) ∙ k c }
  Moves-Owned r r' (rests woken) h = record { kept = h.kept; owners = h.owners }
  Moves-Owned r r' (rests (rotated op callers e)) h =
      let k = subst (λ x. Owners x r.ops r.posts) e h.owners in
      record { kept = h.kept; owners = λ c. omega (arith, k c, count_exec_rotated c op callers) }
  Moves-Owned r r' (rests (began w)) h = record { kept = h.kept; owners = h.owners }
  Moves-Owned r r' (rests (drained w e)) h = record { kept = h.kept; owners = h.owners }
  Moves-Owned r r' (rests (popped_exec c ops w e)) h =
      let (f, k) =
        popped-Owners c r.callers ops r.posts
          (subst (λ x. Owners r.callers x r.posts) e h.owners) in
      record {
        kept = update-Kept c _ r.posts (popped-Kept (r.posts c) f (h.kept c)) h.kept;
        owners = k;
      }
  Moves-Owned r r' (rests (popped_reconcile ops w e)) h = record {
    kept = h.kept;
    owners = subst (λ x. Owners r.callers x r.posts) e h.owners;
  }
  Moves-Owned r r' (rests (rounds_done w e)) h = record { kept = h.kept; owners = h.owners }
  Moves-Owned r r' (rests (round_begun w)) h = record { kept = h.kept; owners = h.owners }
  Moves-Owned r r' (rests (round_ended sub_err unsub_err sub unsub w)) h = record {
    kept = h.kept;
    owners = h.owners;
  }
  Moves-Owned r r' (rests (lock_moved b)) h = record { kept = h.kept; owners = h.owners }
  Moves-Owned r r' (executed failed c p e) h =
      let (old, moved) =
        exec_post-Kept failed (r.posts c) p (r.posts c).stage (r.posts c).queue refl refl (h.kept c)
          e in
      record {
        kept = update-Kept c p r.posts moved.1 h.kept;
        owners = same-Owners c p r.callers r.ops r.posts (moved.0 ∙ sym old) h.owners;
      }

  -- An operation for a channel's queue meets it before its goroutine has started.
  pub popped-waiting :
      (r : RedisBus B) (c : String) (ops : List WriteOp)
      → Owned r
      → r.ops ≡ exec_publish c ∷ ops
      → (r.posts c).stage ≡ waiting
  popped-waiting r c ops h e =
      (popped-Owners c r.callers ops r.posts (subst (λ x. Owners r.callers x r.posts) e h.owners)).0
