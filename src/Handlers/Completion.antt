-- ===== src/Handlers/Completion.antt =====
-- pkg/server/rpc.go: what a handler keeps until the end of `close`.
use livekit_psrpc.Prelude.{
  ◌≡◌, refl, sym, ◌∙◌, ap, subst, ℕ, zero, suc, ◌+◌, ◌-◌, Bool, true, false, not, List, [], ◌∷◌,
  ◌++◌, none, some, ◌==◌, nat_equality, if◌then◌else◌, inl, inr, Option-cases, arith, replicate,
}
use livekit_psrpc.Handlers.Life.{
  Closing, idle, waiting, waited, over, Life, new_life, Event, arrives, takes, stops, starts,
  finishes, closes, waits, ends, is_idle, is_waiting, is_waited, step, run, ended_count,
}

abbrev pub is_over : Closing → Bool
is_over idle = false
is_over waiting = false
is_over waited = false
is_over over = true

-- What holds in every state: the completion is called once, at the end of close, the subscriptions are
-- open until close comes to them, and `run` ends only behind it.
pub record LifeInv (s : Life) : Type 0 where
  pub once : s.completions ≡ ended_count s.closing
  pub done : s.complete ≡ is_over s.closing
  pub opened : s.sub_open ≡ is_idle s.closing
  pub claims : s.claims_open ≡ not (is_over s.closing)
  pub loops : s.looping ≡ false → s.complete ≡ true

kept :
    (s : Life) (b : Bool) (t s' : Life)
    → (if b then some t else none) ≡ some s'
    → (b ≡ true) × (t ≡ s')
kept s true t s' e = (refl, cc)
kept s false t s' e = cc

idle_of : (c : Closing) → is_idle c ≡ true → c ≡ idle
idle_of idle h = refl
idle_of waiting h = cc
idle_of waited h = cc
idle_of over h = cc

waiting_of : (c : Closing) → is_waiting c ≡ true → c ≡ waiting
waiting_of waiting h = refl
waiting_of idle h = cc
waiting_of waited h = cc
waiting_of over h = cc

waited_of : (c : Closing) → is_waited c ≡ true → c ≡ waited
waited_of waited h = refl
waited_of idle h = cc
waited_of waiting h = cc
waited_of over h = cc

-- A step that leaves the close where it is.
same :
    (s t : Life)
    → LifeInv s
    → t.completions ≡ s.completions
    → t.closing ≡ s.closing
    → t.complete ≡ s.complete
    → t.sub_open ≡ s.sub_open
    → t.claims_open ≡ s.claims_open
    → t.looping ≡ s.looping
    → LifeInv t
same s t h a b c d e f = record {
  once = a ∙ h.once ∙ ap ended_count (sym b);
  done = c ∙ h.done ∙ ap is_over (sym b);
  opened = d ∙ h.opened ∙ ap is_idle (sym b);
  claims = e ∙ h.claims ∙ ap (λ x. not (is_over x)) (sym b);
  loops = λ x. c ∙ h.loops (sym f ∙ x);
}

closed :
    (s : Life)
    → LifeInv s
    → s.closing ≡ idle
    → (c : Closing) → is_over c ≡ false
    → is_idle c ≡ false
    → ended_count c ≡ 0
    → LifeInv (record s { sub_open = false; closing = c })
closed s h w c a b n = record {
  once = h.once ∙ ap ended_count w ∙ sym n;
  done = h.done ∙ ap is_over w ∙ sym a;
  opened = sym b;
  claims = h.claims ∙ ap (λ x. not (is_over x)) w ∙ ap not (sym a);
  loops = h.loops;
}

step-LifeInv : (e : Event) (s s' : Life) → LifeInv s → step e s ≡ some s' → LifeInv s'
unfolding step
step-LifeInv arrives s s' h e =
    let (b, t) = kept s _ _ s' e in
    subst LifeInv t (record {
      once = h.once;
      done = h.done;
      opened = h.opened;
      claims = h.claims;
      loops = h.loops;
    })
step-LifeInv (takes expired) s s' h e =
    let (b, t) = kept s _ _ s' e in
    subst LifeInv t (record {
      once = h.once;
      done = h.done;
      opened = h.opened;
      claims = h.claims;
      loops = h.loops;
    })
step-LifeInv stops s s' h e =
    let (b, t) = kept s _ _ s' e in
    subst LifeInv t (record {
      once = h.once;
      done = h.done;
      opened = h.opened;
      claims = h.claims;
      loops = λ x. ground arith;
    })
step-LifeInv starts s s' h e =
    let (b, t) = kept s _ _ s' e in subst LifeInv t (same s _ h refl refl refl refl refl refl)
step-LifeInv finishes s s' h e =
    let (b, t) = kept s _ _ s' e in subst LifeInv t (same s _ h refl refl refl refl refl refl)
step-LifeInv (closes true) s s' h e =
    let (b, t) = kept s _ _ s' e in
    subst LifeInv t (closed s h (idle_of s.closing b) waited refl refl refl)
step-LifeInv (closes false) s s' h e =
    let (b, t) = kept s _ _ s' e in
    subst LifeInv t (closed s h (idle_of s.closing b) waiting refl refl refl)
step-LifeInv waits s s' h e =
    let (b, t) = kept s _ _ s' e in
    let w = waiting_of s.closing (ground arith) in
    subst LifeInv t (record {
      once = h.once ∙ ap ended_count w;
      done = h.done ∙ ap is_over w;
      opened = h.opened ∙ ap is_idle w;
      claims = h.claims ∙ ap (λ x. not (is_over x)) w;
      loops = h.loops;
    })
step-LifeInv ends s s' h e =
    let (b, t) = kept s _ _ s' e in
    let w = waited_of s.closing b in
    let none_yet = h.once ∙ ap ended_count w in
    subst LifeInv t (record {
      once = omega (arith, none_yet);
      done = refl;
      opened = h.opened ∙ ap is_idle w;
      claims = refl;
      loops = λ x. refl;
    })

new-LifeInv : LifeInv new_life
unfolding new_life
new-LifeInv = record { once = refl; done = refl; opened = refl; claims = refl; loops = λ x. sym x }

run_from-LifeInv : (es : List Event) (s s' : Life) → LifeInv s → run es s ≡ some s' → LifeInv s'
unfolding run
run_from-LifeInv [] s s' h e = subst LifeInv (cc) h
run_from-LifeInv (e ∷ es) s s' h r = elim (Option-cases (step e s)) [
  | inl f ↦ (let y : run (e ∷ es) s ≡ none = simp (f, run) refl in cc)
  | inr (t, f) ↦
      run_from-LifeInv es t s' (step-LifeInv e s t h f)
        (let y : run (e ∷ es) s ≡ run es t = simp (f, run) refl in sym y ∙ r)
]

-- From its creation on, however the steps interleave, a handler calls onCompleted once, at the end of
-- close; its subscription for requests is open until close begins and that for claims until it ends;
-- and its goroutine does not end before.
pub run-LifeInv : (es : List Event) (s : Life) → run es new_life ≡ some s → LifeInv s
run-LifeInv es s e = run_from-LifeInv es new_life s new-LifeInv e

run-cons :
    (e : Event) (es : List Event) (s t : Life) → step e s ≡ some t → run (e ∷ es) s ≡ run es t
unfolding run
run-cons e es s t h = simp (h, run) refl

finish_one :
    (n : ℕ) (s : Life) → s.handling ≡ suc n → step finishes s ≡ some (record s { handling = n })
unfolding step
finish_one n s e =
    let f : (s.handling == 0) ≡ false = ground arith in
    let g : s.handling - 1 ≡ n = omega (arith, e) in rw (f, g) refl

-- The end of the requests at work, and of the close.
abbrev pub finishing : ℕ → List Event
finishing n = replicate n finishes ++ waits ∷ ends ∷ []

abbrev pub ended : Life → Life
ended s = record s {
  handling = 0;
  claims_open = false;
  completions = s.completions + 1;
  complete = true;
  closing = over;
}

close_waited :
    (s : Life) → s.closing ≡ waiting → s.handling ≡ 0 → run (waits ∷ ends ∷ []) s ≡ some (ended s)
unfolding run step
close_waited s w e =
    let none_left : (s.handling == 0) ≡ true = ground arith in
    let one : step waits s ≡ some (record s { closing = waited }) = rw (w, none_left) refl in
    run-cons waits (ends ∷ []) s (record s { closing = waited }) one
    ∙ ap (λ n. some (record (ended s) { handling = n })) e

close_completes_from :
    (n : ℕ) (s : Life) → s.closing ≡ waiting → s.handling ≡ n → run (finishing n) s ≡ some (ended s)
close_completes_from zero s w e = close_waited s w e
close_completes_from (suc n) s w e =
    run-cons finishes (finishing n) s (record s { handling = n }) (finish_one n s e)
    ∙ close_completes_from n (record s { handling = n }) w refl

-- A close that waits ends: once the requests that have started to be handled are over, the next two
-- steps complete it, with onCompleted called once more.
pub close_completes :
    (s : Life) → s.closing ≡ waiting → run (finishing s.handling) s ≡ some (ended s)
close_completes s w = close_completes_from s.handling s w refl
