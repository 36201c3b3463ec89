-- ===== src/Redis/Refine.antt =====
-- internal/bus/bus_redis.go: `Publish` against an outbox for each channel.
use livekit_psrpc.Prelude.{
  some-injective, ◌≡◌, refl, sym, ◌∙◌, subst, String, ◌∷◌, none, some, inl, inr, Bool,
  if◌then◌else◌, Option-cases, Bool-cases, ◌==◌, string_equality,
}
use livekit_psrpc.Redis.State.{
  exec_publish, waiting, checking, Post, RedisBus, new_redis_message_bus,
}
use livekit_psrpc.Redis.Steps.{update, publish}
use livekit_psrpc.Redis.Worker.{
  exec_post, exec, Event, step, Reach, end_round, publishing, executing, subscribing, unsubscribing,
  pushing, waking, rotating, working, holding, letting_go,
}
use livekit_psrpc.Redis.Touches.{keeps, marks}
use livekit_psrpc.Redis.Moves.{
  given_more, Rest, touched, pushed, lock_moved, Stage-cases, publish_next, woken, rotated, began,
  drained, popped_exec, popped_reconcile, rounds_done, round_begun, round_ended,
}
use livekit_psrpc.Redis.Owned.{Owned, popped-waiting}
use livekit_psrpc.Redis.Quiet.{Reach-Sound}
use livekit_psrpc.Redis.Does.{Does, step-Does}
use livekit_psrpc.Redis.Outbox.{
  Act, idles, accepts, sends, act_of, Advance, idle, outbox, same-idle, exec_post-Advance,
  update-Advance, more-Advance, restaged,
}

module _ {B : Type 0} where
  publish-Advance :
      (c : String) (b : B) (r : RedisBus B) (o : String)
      → Advance
          (if c == o then accepts b else idles)
          (outbox (r.posts o))
          (outbox ((publish c b r).posts o))
  unfolding publish
  publish-Advance c b r o = elim (Stage-cases (r.posts c).stage) [
    | inl e ↦
        let p : Post B = given_more b (r.posts c) in
        let t : RedisBus B = record r {
          posts = update c (record p { stage = waiting }) r.posts;
          callers = exec_publish c ∷ r.callers;
        } in
        let y : publish c b r ≡ t = simp (e, publish) refl in
        subst
          (λ x.
            Advance (if c == o then accepts b else idles) (outbox (r.posts o)) (outbox (x.posts o)))
          (sym y)
          (update-Advance c (record p { stage = waiting }) r.posts (accepts b)
            (subst (Advance (accepts b) (outbox (r.posts c))) (sym (restaged p waiting (rw e refl)))
              (more-Advance b (r.posts c)))
            o)
    | inr e ↦
        subst
          (λ x.
            Advance (if c == o then accepts b else idles) (outbox (r.posts o)) (outbox (x.posts o)))
          (sym (publish_next c b r (r.posts c).stage refl e))
          (update-Advance c _ r.posts (accepts b) (more-Advance b (r.posts c)) o)
  ]

  exec-Advance :
      (failed : Bool) (c : String) (r r' : RedisBus B)
      → exec failed c r ≡ some r'
      → (o : String)
      → Advance (if c == o then sends failed else idles) (outbox (r.posts o)) (outbox (r'.posts o))
  unfolding exec
  exec-Advance failed c r r' e o = elim (Option-cases (exec_post failed (r.posts c))) [
    | inl h ↦ (let x : exec failed c r ≡ none = simp (h, exec) refl in cc)
    | inr (p, h) ↦
        let t : RedisBus B = record r { posts = update c p r.posts } in
        let x : exec failed c r ≡ some t = simp (h, exec) refl in
        subst
          (λ y.
            Advance (if c == o then sends failed else idles) (outbox (r.posts o))
              (outbox (y.posts o)))
          (some-injective t r' (sym x ∙ e))
          (update-Advance c p r.posts (sends failed)
            (exec_post-Advance failed (r.posts c) p (r.posts c).stage (r.posts c).queue refl refl h)
            o)
  ]

  abbrev Idle : RedisBus B → RedisBus B → Type 0
  Idle r r' = (o : String) → Advance idles (outbox (r.posts o)) (outbox (r'.posts o))

  -- A step whose new posts are those of one channel, staged anew.
  Rest-Idle : (r r' : RedisBus B) → Rest r r' → Owned r → Idle r r'
  unfolding end_round
  Rest-Idle r _ (touched (keeps subs queues id same)) h o = idle _
  Rest-Idle r _ (touched (marks ch subs queues id same)) h o = idle _
  Rest-Idle r r' (pushed op callers e) h o = idle _
  Rest-Idle r r' woken h o = idle _
  Rest-Idle r r' (rotated op callers e) h o = idle _
  Rest-Idle r r' (began w) h o = idle _
  Rest-Idle r r' (drained w e) h o = idle _
  Rest-Idle r r' (popped_exec c ops w e) h o =
      let f = popped-waiting r c ops h e in
      let p : Post B = record (r.posts c) { stage = checking } in
      let i : Act B = idles in
      let k : (if c == o then i else i) ≡ i = elim (Bool-cases (c == o)) [
        | inl y ↦ rw y refl
        | inr y ↦ rw y refl
      ] in
      subst (λ a. Advance a (outbox (r.posts o)) (outbox (update c p r.posts o))) k
        (update-Advance c p r.posts idles
          (same-idle _ _ (sym (restaged (r.posts c) checking (rw f refl)))) o)
  Rest-Idle r r' (popped_reconcile ops w e) h o = idle _
  Rest-Idle r r' (rounds_done w e) h o = idle _
  Rest-Idle r r' (round_begun w) h o = idle _
  Rest-Idle r r' (round_ended sub_err unsub_err sub unsub w) h o = idle _
  Rest-Idle r r' (lock_moved b) h o = idle _

  Does-Advance :
      (e : Event B) (r r' : RedisBus B)
      → Owned r
      → Does e r r'
      → (c : String) → Advance (act_of c e) (outbox (r.posts c)) (outbox (r'.posts c))
  Does-Advance (publishing o b) r r' h d c =
      subst
        (λ t.
          Advance (if o == c then accepts b else idles) (outbox (r.posts c)) (outbox (t.posts c)))
        d (publish-Advance o b r c)
  Does-Advance (executing failed o) r r' h d c = exec-Advance failed o r r' d c
  Does-Advance (subscribing queue o size) r r' h d c = Rest-Idle r r' d h c
  Does-Advance (unsubscribing queue o id) r r' h d c = Rest-Idle r r' d h c
  Does-Advance pushing r r' h d c = Rest-Idle r r' d h c
  Does-Advance waking r r' h d c = Rest-Idle r r' d h c
  Does-Advance rotating r r' h d c = Rest-Idle r r' d h c
  Does-Advance (working sub_err unsub_err) r r' h d c = Rest-Idle r r' d h c
  Does-Advance holding r r' h d c = Rest-Idle r r' d h c
  Does-Advance letting_go r r' h d c = Rest-Idle r r' d h c

  -- In a reachable state, each step of the bus does to the outbox of a channel what its event asks: a
  -- publication on the channel puts its message at the end, a step of the channel's goroutine calls Redis
  -- with the first message, which is lost if the call fails, or leaves the outbox, and every other step
  -- leaves it.
  pub step-Advance :
      (e : Event B) (r r' : RedisBus B)
      → Reach new_redis_message_bus r
      → step e r ≡ some r'
      → (c : String) → Advance (act_of c e) (outbox (r.posts c)) (outbox (r'.posts c))
  step-Advance e r r' reach h = Does-Advance e r r' (Reach-Sound r reach).owned (step-Does e r r' h)
