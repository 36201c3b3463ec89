-- ===== src/Redis/Kept.antt =====
-- internal/bus/bus_redis.go: the queues of `publishOps` and their goroutines `exec`.
use livekit_psrpc.Prelude.{
  some-injective, ◌≡◌, refl, sym, ◌∙◌, ap, subst, ℕ, true, false, Bool, List, [], ◌∷◌, ◌++◌, none,
  some, string_equality,
}
use mathlib.Core.List.{append_assoc, map-append}
use livekit_psrpc.Redis.State.{Stage, absent, waiting, checking, draining, sending, Post, messages}
use livekit_psrpc.Redis.Worker.{exec_post}
use livekit_psrpc.Redis.Moves.{is_absent, given_more}

snoc_in :
    {A : Type 0} (xs ys zs : List A) (a : A)
    → xs ++ ys ++ (zs ++ a ∷ []) ≡ (xs ++ ys ++ zs) ++ a ∷ []
snoc_in xs ys zs a = simp append_assoc refl

module _ {B : Type 0} where
  abbrev pub waits : Stage B → ℕ
  waits absent = 0
  waits waiting = 1
  waits checking = 0
  waits draining = 0
  waits (sending b) = 0

  -- The message that the goroutine has taken from the queue.
  abbrev pub in_flight : Stage B → List B
  in_flight absent = []
  in_flight waiting = []
  in_flight checking = []
  in_flight draining = []
  in_flight (sending b) = b ∷ []

  pub record Kept (p : Post B) : Type 0 where
    pub in_order : messages p.tried ++ in_flight p.stage ++ p.queue ≡ p.given
    pub idle : is_absent p.stage ≡ true → p.queue ≡ []

  pub more-Kept : (b : B) (p : Post B) → Kept p → is_absent p.stage ≡ false → Kept (given_more b p)
  more-Kept b p h busy = record {
    in_order =
        snoc_in (messages p.tried) (in_flight p.stage) p.queue b ∙ ap (λ x. x ++ b ∷ []) h.in_order;
    idle = λ x. absurd (cc);
  }

  pub first-Kept :
      (b : B) (p : Post B)
      → Kept p
      → p.stage ≡ absent
      → Kept (record (given_more b p) { stage = waiting })
  first-Kept b p h e = record {
    in_order = snoc_in (messages p.tried) [] p.queue b ∙ ap (λ x. x ++ b ∷ []) (rw e at h.in_order);
    idle = λ x. absurd (let y : true ≡ false = sym x in cc);
  }

  abbrev pub Moved : Post B → Type 0
  Moved p = (waits p.stage ≡ 0) × Kept p

  next-Moved :
      (failed : Bool) (p p' q : Post B)
      → exec_post failed p ≡ some q
      → exec_post failed p ≡ some p'
      → Moved q
      → Moved p'
  next-Moved failed p p' q e x h = subst Moved (some-injective q p' (sym e ∙ x)) h

  taken :
      (p : Post B) (b : B) (q : List B)
      → p.stage ≡ draining
      → p.queue ≡ b ∷ q
      → Kept p
      → messages p.tried ++ (b ∷ []) ++ q ≡ p.given
  taken p b q e f h =
      let k : messages p.tried ++ [] ++ (b ∷ q) ≡ p.given = rw (e, f) at h.in_order in
      let l : messages p.tried ++ (b ∷ []) ++ q ≡ messages p.tried ++ [] ++ (b ∷ q) =
        simp append_assoc refl in
      l ∙ k

  done :
      (failed : Bool) (p : Post B) (b : B)
      → p.stage ≡ sending b
      → Kept p
      → messages (p.tried ++ (b, failed) ∷ []) ++ [] ++ p.queue ≡ p.given
  done failed p b e h =
      let k : (messages p.tried ++ b ∷ []) ++ p.queue ≡ p.given = rw e at h.in_order in
      let l : (messages p.tried ++ b ∷ []) ++ [] ++ p.queue
          ≡ (messages p.tried ++ b ∷ []) ++ p.queue =
        simp append_assoc refl in
      ap (λ x. x ++ [] ++ p.queue) (map-append (λ t. t.0) p.tried ((b, failed) ∷ [])) ∙ l ∙ k

  pub exec_post-Kept :
      (failed : Bool) (p p' : Post B) (s : Stage B) (q : List B)
      → p.stage ≡ s
      → p.queue ≡ q
      → Kept p
      → exec_post failed p ≡ some p'
      → (waits s ≡ 0) × Moved p'
  unfolding exec_post
  exec_post-Kept failed p p' absent q e f h x =
      (let y : exec_post failed p ≡ none = simp (e, exec_post) refl in cc)
  exec_post-Kept failed p p' waiting q e f h x =
      (let y : exec_post failed p ≡ none = simp (e, exec_post) refl in cc)
  exec_post-Kept failed p p' checking [] e f h x = (
    refl,
    next-Moved failed p p' (record p { stage = absent }) (simp (e, f, exec_post) refl) x
        (refl, record { in_order = rw e at h.in_order; idle = λ z. f }),
  )
  exec_post-Kept failed p p' checking (b ∷ q) e f h x = (
    refl,
    next-Moved failed p p' (record p { stage = draining }) (simp (e, f, exec_post) refl) x
        (refl, record { in_order = rw e at h.in_order; idle = λ z. absurd (cc) }),
  )
  exec_post-Kept failed p p' draining [] e f h x = (
    refl,
    next-Moved failed p p' (record p { stage = checking }) (simp (e, f, exec_post) refl) x
        (refl, record { in_order = rw e at h.in_order; idle = λ z. absurd (cc) }),
  )
  exec_post-Kept failed p p' draining (b ∷ q) e f h x = (
    refl,
    next-Moved failed p p' (record p { stage = sending b; queue = q }) (simp (e, f, exec_post) refl)
        x (refl, record { in_order = taken p b q e f h; idle = λ z. absurd (cc) }),
  )
  exec_post-Kept failed p p' (sending b) q e f h x = (
    refl,
    next-Moved failed p p' (record p { stage = draining; tried = p.tried ++ (b, failed) ∷ [] })
        (simp (e, exec_post) refl) x
        (refl, record { in_order = done failed p b e h; idle = λ z. absurd (cc) }),
  )

  pub popped-Kept : (p : Post B) → p.stage ≡ waiting → Kept p → Kept (record p { stage = checking })
  popped-Kept p e h = record {
    in_order = rw e at h.in_order;
    idle = λ x. absurd (let y : true ≡ false = sym x in cc);
  }
