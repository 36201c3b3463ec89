-- ===== src/Handlers/Draining.antt =====
-- pkg/server/stream.go: the streams that the close of a handler leaves.
use livekit_psrpc.Prelude.{
  ◌≡◌, ◌⊎◌, refl, sym, ◌∙◌, subst, String, Bool, true, false, not, ◌&&◌, ◌||◌, List, [], ◌∷◌, none,
  some, ◌==◌, string_equality, if◌then◌else◌, elem, inl, inr, Bool-cases, Option-cases, arith,
}
use livekit_psrpc.Handlers.Streams.{
  StreamHandler, new_stream_handler, without, drop_one, StreamEvent, opens, declines, registers,
  begins_end, finishes, closed_streams, begins_close, closes_stream, ends_close, is_none_left,
  step_stream, run_stream,
}

-- A stream that is left is among those that it once was.
elem-without :
    (id x : String) (ss : List String) → elem x (without id ss) ≡ (not (id == x) && elem x ss)
elem-without id x [] = ground arith
elem-without id x (s ∷ ss) = ground (
  arith,
  elem-without id x ss,
  string_equality.decides s id,
  string_equality.decides s x,
  string_equality.decides id x,
)

elem-drop_one :
    (id x : String) (ss : List String) → elem x (drop_one id ss) ≡ true → elem x ss ≡ true
elem-drop_one id x [] h = h
elem-drop_one id x (s ∷ ss) h = ground (arith, elem-drop_one id x ss)

-- During a close: what opens was opening when it began, and what is registered is still to be closed, was
-- opening then, or is being closed elsewhere.
pub record Draining (h : StreamHandler) : Type 0 where
  pub drains : h.draining ≡ h.closing
  pub completes : h.complete ≡ true → (h.closing ≡ true) × (is_none_left h.to_close ≡ true)
  pub opened : h.closing ≡ true → (id : String) → elem id h.opening ≡ true → elem id h.late ≡ true
  pub known :
      h.closing ≡ true
      → (id : String) → elem id h.streams ≡ true
      → (elem id h.to_close || elem id h.late || elem id h.ending) ≡ true

kept :
    (h : StreamHandler) (b : Bool) (t h' : StreamHandler)
    → (if b then some t else none) ≡ some h'
    → (b ≡ true) × (t ≡ h')
kept h true t h' e = (refl, cc)
kept h false t h' e = cc

either :
    (P : StreamHandler → Type 0) (b : Bool) (s t : StreamHandler)
    → (b ≡ true → P s)
    → (b ≡ false → P t)
    → P (if b then s else t)
either P true s t x y = x refl
either P false s t x y = y refl

opens-Draining :
    (id : String) (h : StreamHandler)
    → Draining h
    → Draining (if h.draining then h else record h { opening = id ∷ h.opening })
opens-Draining id h d =
    either Draining h.draining h (record h { opening = id ∷ h.opening }) (λ full. d)
      (λ free. record {
        drains = d.drains;
        completes = d.completes;
        opened = λ c x y. absurd (let both : true ≡ false = sym c ∙ sym d.drains ∙ free in cc);
        known = d.known;
      })

registers-Draining :
    (id : String) (h : StreamHandler)
    → Draining h
    → elem id h.opening ≡ true
    → Draining (record h { opening = drop_one id h.opening; streams = id ∷ h.streams })
registers-Draining id h d there = record {
  drains = d.drains;
  completes = d.completes;
  opened = λ c x y. d.opened c x (elem-drop_one id x h.opening y);
  known = λ c x y. elim (Bool-cases (id == x)) [
    | inl same ↦
        let z : elem x h.opening ≡ true =
          subst (λ k. elem k h.opening ≡ true) ((string_equality.decides id x).0 same) there in
        let w = d.opened c x z in ground arith
    | inr other ↦ d.known c x (ground arith)
  ];
}

finishes-Draining :
    (id : String) (h : StreamHandler)
    → Draining h
    → Draining (record h { streams = without id h.streams; ending = without id h.ending })
finishes-Draining id h d = record {
  drains = d.drains;
  completes = d.completes;
  opened = d.opened;
  known = λ c x y.
      let v = elem-without id x h.ending in
      let w = elem-without id x h.streams in let old = d.known c x (ground arith) in ground arith;
}

begins-Draining :
    (h : StreamHandler)
    → Draining h
    → h.closing ≡ false
    → Draining
        (record h { draining = true; closing = true; to_close = h.streams; late = h.opening })
begins-Draining h d f = record {
  drains = refl;
  completes = λ c. absurd (let both : true ≡ false = sym (d.completes c).0 ∙ f in cc);
  opened = λ c x y. y;
  known = λ c x y. ground arith;
}

not_left : (id : String) (ss : List String) → elem id ss ≡ true → is_none_left ss ≡ false
not_left id [] e = cc
not_left id (s ∷ ss) e = refl

closes-Draining :
    (id : String) (h : StreamHandler)
    → Draining h
    → elem id h.to_close ≡ true
    → Draining (record h { to_close = without id h.to_close; streams = closed_streams id h })
unfolding closed_streams
closes-Draining id h d there = record {
  drains = d.drains;
  completes = λ c.
      absurd (let both : true ≡ false = sym (d.completes c).1 ∙ not_left id h.to_close there in cc);
  opened = d.opened;
  known = λ c x y.
      let v = elem-without id x h.to_close in
      elim (Bool-cases (elem id h.ending)) [
        | inl ends ↦
            let there : elem x h.streams ≡ true = rw ends at y in
            let old = d.known c x there in
            elim (Bool-cases (id == x)) [
              | inl same ↦
                  let z : elem x h.ending ≡ true =
                    subst (λ k. elem k h.ending ≡ true) ((string_equality.decides id x).0 same)
                      ends in
                  ground arith
              | inr other ↦ ground arith
            ]
        | inr alive ↦
            let there : elem x (without id h.streams) ≡ true = rw alive at y in
            let w = elem-without id x h.streams in
            let old = d.known c x (ground arith) in ground arith
      ];
}

step-Draining :
    (e : StreamEvent) (h h' : StreamHandler) → Draining h → step_stream e h ≡ some h' → Draining h'
unfolding step_stream
step-Draining (opens id) h h' d e = subst Draining (cc) (opens-Draining id h d)
step-Draining (declines id) h h' d e =
    let (b, t) = kept h _ _ h' e in
    subst Draining t (record {
      drains = d.drains;
      completes = d.completes;
      opened = λ c x y. d.opened c x (elem-drop_one id x h.opening y);
      known = d.known;
    })
step-Draining (registers id) h h' d e =
    let (b, t) = kept h _ _ h' e in subst Draining t (registers-Draining id h d b)
step-Draining (begins_end id) h h' d e =
    let (b, t) = kept h _ _ h' e in
    subst Draining t (record {
      drains = d.drains;
      completes = d.completes;
      opened = d.opened;
      known = λ c x y. let old = d.known c x y in ground arith;
    })
step-Draining (finishes id) h h' d e =
    let (b, t) = kept h _ _ h' e in subst Draining t (finishes-Draining id h d)
step-Draining begins_close h h' d e =
    let (b, t) = kept h _ _ h' e in subst Draining t (begins-Draining h d (ground arith))
step-Draining (closes_stream id) h h' d e =
    let (b, t) = kept h _ _ h' e in subst Draining t (closes-Draining id h d b)
step-Draining ends_close h h' d e =
    let (b, t) = kept h _ _ h' e in
    subst Draining t (record {
      drains = d.drains;
      completes = λ c. (ground arith, ground arith);
      opened = d.opened;
      known = d.known;
    })

new-Draining : Draining new_stream_handler
unfolding new_stream_handler
new-Draining = record {
  drains = refl;
  completes = λ c. absurd (let both : true ≡ false = sym c in cc);
  opened = λ c x y. absurd (let both : true ≡ false = sym c in cc);
  known = λ c x y. absurd (let both : true ≡ false = sym c in cc);
}

run-Draining :
    (es : List StreamEvent) (h h' : StreamHandler)
    → Draining h
    → run_stream es h ≡ some h'
    → Draining h'
unfolding run_stream
run-Draining [] h h' d e = subst Draining (cc) d
run-Draining (e ∷ es) h h' d r = elim (Option-cases (step_stream e h)) [
  | inl f ↦ (let y : run_stream (e ∷ es) h ≡ none = simp (f, run_stream) refl in cc)
  | inr (t, f) ↦
      run-Draining es t h' (step-Draining e h t d f)
        (let y : run_stream (e ∷ es) h ≡ run_stream es t = simp (f, run_stream) refl in sym y ∙ r)
]

-- When the close of a handler is complete, the only streams that it can still have, or get, are those
-- whose open request was on its way when the close began, and those that are being closed elsewhere.
pub left_over :
    (es : List StreamEvent) (h : StreamHandler)
    → run_stream es new_stream_handler ≡ some h
    → h.complete ≡ true
    → (id : String) → ((elem id h.streams ≡ true) ⊎ (elem id h.opening ≡ true))
    → ((elem id h.late ≡ true) ⊎ (elem id h.ending ≡ true))
left_over es h r c id s =
    let d = run-Draining es new_stream_handler h new-Draining r in
    let (closing, none_left) = d.completes c in
    elim s [
      | inl there ↦
          let k = d.known closing id there in
          elim (Bool-cases (elem id h.to_close)) [
            | inl waits ↦
                absurd
                  (let both : true ≡ false = sym none_left ∙ not_left id h.to_close waits in cc)
            | inr over ↦ elim (Bool-cases (elem id h.late)) [
              | inl late ↦ inl late
              | inr early ↦ inr (ground arith)
            ]
          ]
      | inr there ↦ inl (d.opened closing id there)
    ]
