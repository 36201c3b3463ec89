-- ===== src/Stream/Acks.antt =====
-- internal/stream/stream.go: the ack channels of a stream.
use livekit_psrpc.Prelude.{
  ℕ, ◌+◌, ◌<◌, ◌≡◌, ◌≢◌, ◌⊎◌, inl, inr, refl, sym, ap, ◌∙◌, subst, String, true, false, List, [],
  ◌∷◌, Option, none, some, if◌then◌else◌, ◌==◌, nat_equality, string_equality, Bool-cases,
  Option-cases, elem, arith, length,
}
use livekit_psrpc.Stream.Steps.{take_sender}

-- The channels that are registered are open, older than the next one and each registered under one id,
-- and those that are closed are older than the next one.
pub record AreSound (look : String → Option ℕ) (next_ack : ℕ) (acked : List ℕ) : Type 0 where
  pub unclosed : (id : String) (c : ℕ) → look id ≡ some c → (elem c acked ≡ false) × (c < next_ack)
  pub alone : (id other : String) (c : ℕ) → look id ≡ some c → look other ≡ some c → id ≡ other
  pub old : (c : ℕ) → elem c acked ≡ true → c < next_ack

module _ (look look' : String → Option ℕ) (next_ack : ℕ) (acked : List ℕ) (id : String) where
  fresh : AreSound look next_ack acked → elem next_ack acked ≡ false
  fresh v = elim (Bool-cases (elem next_ack acked)) [
    | inl h ↦ absurd (let less = v.old next_ack h in omega arith)
    | inr h ↦ h
  ]

  -- A look-up that finds a channel finds the new one or an old one.
  found :
      ((o : String) → look' o ≡ (if id == o then some next_ack else look o))
      → (o : String) (c : ℕ) → look' o ≡ some c
      → ((id ≡ o) × (next_ack ≡ c)) ⊎ (look o ≡ some c)
  found eq o c h = elim (Bool-cases (id == o)) [
    | inl same ↦
        let hit : some next_ack ≡ some c = sym (eq o ∙ rw same refl) ∙ h in
        inl ((string_equality.decides _ _).0 same, cc)
    | inr other ↦ inr (sym (eq o ∙ rw other refl) ∙ h)
  ]

  kept :
      ((o : String) → look' o ≡ (if id == o then none else look o))
      → (o : String) (c : ℕ) → look' o ≡ some c
      → (look o ≡ some c) × (id ≢ o)
  kept eq o c h = elim (Bool-cases (id == o)) [
    | inl same ↦ absurd (let hit : none ≡ some c = sym (eq o ∙ rw same refl) ∙ h in cc)
    | inr other ↦
        (sym (eq o ∙ rw other refl) ∙ h, λ e. ground (arith, string_equality.decides id o))
  ]

  pub added-AreSound :
      ((o : String) → look' o ≡ (if id == o then some next_ack else look o))
      → AreSound look next_ack acked
      → AreSound look' (next_ack + 1) acked
  added-AreSound eq v = record {
    unclosed = λ o c h. elim (found eq o c h) [
      | inl (same, new) ↦ (subst (λ k. elem k acked ≡ false) new (fresh v), omega arith)
      | inr before ↦
          ((v.unclosed o c before).0, let less = (v.unclosed o c before).1 in omega arith)
    ];
    alone = λ o p c h k. elim (found eq o c h) [
      | inl (same, new) ↦ elim (found eq p c k) [
        | inl (same', new') ↦ sym same ∙ same'
        | inr before ↦ absurd (let less = (v.unclosed p c before).1 in omega arith)
      ]
      | inr before ↦ elim (found eq p c k) [
        | inl (same', new') ↦ absurd (let less = (v.unclosed o c before).1 in omega arith)
        | inr before' ↦ v.alone o p c before before'
      ]
    ];
    old = λ c h. let less = v.old c h in omega arith;
  }

  pub removed-AreSound :
      ((o : String) → look' o ≡ (if id == o then none else look o))
      → AreSound look next_ack acked
      → AreSound look' next_ack acked
  removed-AreSound eq v = record {
    unclosed = λ o c h. v.unclosed o c (kept eq o c h).0;
    alone = λ o p c h k. v.alone o p c (kept eq o c h).0 (kept eq p c k).0;
    old = v.old;
  }

  pub closed-AreSound :
      ((o : String) → look' o ≡ (if id == o then none else look o))
      → (chan : ℕ) → look id ≡ some chan
      → AreSound look next_ack acked
      → AreSound look' next_ack (chan ∷ acked)
  closed-AreSound eq chan at v = record {
    unclosed = λ o c h.
        let (before, ne) = kept eq o c h in
        (
          elim (Bool-cases (chan == c)) [
            | inl same ↦
                absurd
                  (ne (v.alone id o c (at ∙ ap some ((nat_equality.decides _ _).0 same)) before))
            | inr other ↦ rw other ((v.unclosed o c before).0)
          ],
          (v.unclosed o c before).1,
        );
    alone = λ o p c h k. v.alone o p c (kept eq o c h).0 (kept eq p c k).0;
    old = λ c h. elim (Bool-cases (chan == c)) [
      | inl same ↦
          subst (λ k. k < next_ack) ((nat_equality.decides _ _).0 same) ((v.unclosed id chan at).1)
      | inr other ↦ v.old c (sym (rw other refl) ∙ h)
    ];
  }

abbrev Found : Option (String × List (ℕ × String)) → Option (String × List (ℕ × String)) → Type 0
Found a b = a ≡ b

pub take_sender-length :
    (chan : ℕ) (senders others : List (ℕ × String)) (id : String)
    → take_sender chan senders ≡ some (id, others)
    → length senders ≡ length others + 1
unfolding take_sender
take_sender-length chan [] others id h = absurd cc
take_sender-length chan ((c, i) ∷ senders) others id h = elim (Bool-cases (c == chan)) [
  | inl same ↦
      let here : Found (some (i, senders)) (some (id, others)) = sym (rw same refl) ∙ h in
      let rest : senders ≡ others = cc in rw rest (omega arith)
  | inr other ↦ elim (Option-cases (take_sender chan senders)) [
    | inl e ↦
        let nowhere : Found none (some (id, others)) = sym (rw other rw e refl) ∙ h in absurd cc
    | inr ((f, left), e) ↦
        let there : Found (some (f, (c, i) ∷ left)) (some (id, others)) =
          sym (rw other rw e refl) ∙ h in
        let rest : (c, i) ∷ left ≡ others = cc in
        let less = take_sender-length chan senders left f e in rw⁻¹ rest (omega arith)
  ]
]
