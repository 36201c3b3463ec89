-- ===== src/Server/Added.antt =====
-- pkg/server/server.go: a registry compared with an earlier one to which handlers were added.
use livekit_psrpc.Prelude.{
  ◌+◌, ◌≡◌, inl, inr, refl, sym, ◌∙◌, subst, true, false, List, [], ◌∷◌, ◌++◌, none, some, ◌||◌, ok,
  ◌==◌, ==_refl, elem, length, length-append, lookup, insert, delete, lookup-insert, lookup-delete,
  Text, text_equality, Bool-cases, arith,
}
use livekit_psrpc.Server.Registry.{RpcServer, register_handler, deregister_handler, complete}

abbrev pub Distinct : List Text → Type 0
Distinct [] = Unit
Distinct (k ∷ ks) = (elem k ks ≡ false) × Distinct ks

elem-append : (k a : Text) (ks : List Text) → elem k (ks ++ a ∷ []) ≡ (elem k ks || a == k)
elem-append k a [] = elim (Bool-cases (a == k)) [ inl h ↦ rw h refl | inr h ↦ rw h refl ]
elem-append k a (b ∷ ks) = elim (Bool-cases (b == k)) [
  | inl h ↦ rw h refl
  | inr h ↦ rw h (elem-append k a ks)
]

Distinct-append :
    (k : Text) (ks : List Text) → Distinct ks → elem k ks ≡ false → Distinct (ks ++ k ∷ [])
Distinct-append k [] d e = (refl, tt)
Distinct-append k (j ∷ ks) (new, d) e = elim (Bool-cases (j == k)) [
  | inl same ↦ absurd (let both : false ≡ true = sym e ∙ rw same refl in cc)
  | inr other ↦
      let back : (k == j) ≡ false =
        ground (arith, text_equality.decides k j, text_equality.decides j k) in
      (elem-append j k ks ∙ rw new back, Distinct-append k ks d (sym (rw other refl) ∙ e))
]

elem-last : (o k : Text) (ks : List Text) → (k == o) ≡ true → elem o (ks ++ k ∷ []) ≡ true
elem-last o k ks h =
    elem-append o k ks ∙ elim (Bool-cases (elem o ks)) [ inl a ↦ rw a refl | inr a ↦ rw a h ]

elem-other : (o k : Text) (ks : List Text) → (k == o) ≡ false → elem o (ks ++ k ∷ []) ≡ elem o ks
elem-other o k ks h =
    elem-append o k ks ∙ elim (Bool-cases (elem o ks)) [ inl a ↦ rw a refl | inr a ↦ rw a h ]

module _ {H : Type 0} where
  -- s has the handlers of s0 and, under new and different keys ks, one more for each.
  pub record IsAdded (s0 s : RpcServer H) (ks : List Text) : Type 0 where
    pub active_more : s.active ≡ s0.active + length ks
    pub shutdown_same : s.shutdown ≡ s0.shutdown
    pub distinct : Distinct ks
    pub others : (k : Text) → elem k ks ≡ false → lookup k s.handlers ≡ lookup k s0.handlers
    pub added :
        (k : Text)
        → elem k ks ≡ true
        → (lookup k s0.handlers ≡ none) × ((h : H) × (lookup k s.handlers ≡ some h))

  deregister_known :
      (key : Text) (s : RpcServer H) (h : H)
      → lookup key s.handlers ≡ some h
      → deregister_handler key s ≡ complete key s
  unfolding deregister_handler
  deregister_known key s h e = simp (e, deregister_handler) refl

  deregistered-others :
      (s0 s : RpcServer H) (k : Text) (ks : List Text)
      → IsAdded s0 s (k ∷ ks)
      → lookup k s0.handlers ≡ none
      → (o : Text) → elem o ks ≡ false
      → lookup o (delete k s.handlers) ≡ lookup o s0.handlers
  deregistered-others s0 s k ks v fresh o e = elim (Bool-cases (k == o)) [
    | inl same ↦
        lookup-delete s.handlers k o
        ∙ rw same (
            sym
              (subst (λ x. lookup x s0.handlers ≡ none) ((text_equality.decides _ _).0 same) fresh))
    | inr other ↦ lookup-delete s.handlers k o ∙ rw other (v.others o (rw other e))
  ]

  deregistered-added :
      (s0 s : RpcServer H) (k : Text) (ks : List Text)
      → IsAdded s0 s (k ∷ ks)
      → (o : Text) → elem o ks ≡ true
      → (lookup o s0.handlers ≡ none) × ((h : H) × (lookup o (delete k s.handlers) ≡ some h))
  deregistered-added s0 s k ks v o e = elim (Bool-cases (k == o)) [
    | inl same ↦ absurd (
        let missing =
          subst (λ x. elem x ks ≡ false) ((text_equality.decides _ _).0 same) v.distinct.0 in
        let both : true ≡ false = sym e ∙ missing in cc)
    | inr other ↦
        let (fresh, (h, at)) = v.added o (rw other e) in
        (fresh, (h, lookup-delete s.handlers k o ∙ rw other at))
  ]

  pub deregister-IsAdded :
      (s0 s : RpcServer H) (k : Text) (ks : List Text)
      → IsAdded s0 s (k ∷ ks)
      → IsAdded s0 (deregister_handler k s) ks
  deregister-IsAdded s0 s k ks v =
      let here : elem k (k ∷ ks) ≡ true = rw (==_refl k) refl in
      let (fresh, (h, at)) = v.added k here in
      subst (λ t. IsAdded s0 t ks) (sym (deregister_known k s h at))
        (record {
          active_more = let more = v.active_more in omega arith;
          shutdown_same = v.shutdown_same;
          distinct = v.distinct.1;
          others = λ o e. deregistered-others s0 s k ks v fresh o e;
          added = λ o e. deregistered-added s0 s k ks v o e;
        })

  pub registered :
      {D : Type 0} (s : RpcServer H) (key : Text) (h : H)
      → s.shutdown ≡ false
      → lookup key s.handlers ≡ none
      → register_handler {D = D} key (ok h) s
        ≡ (record s { handlers = insert key h s.handlers; active = s.active + 1 }, none)
  unfolding register_handler
  registered s key h open' fresh = simp (open', fresh, register_handler) refl

  inserted-others :
      (s0 s : RpcServer H) (k : Text) (h : H) (ks : List Text)
      → IsAdded s0 s ks
      → (o : Text) → elem o (ks ++ k ∷ []) ≡ false
      → lookup o (insert k h s.handlers) ≡ lookup o s0.handlers
  inserted-others s0 s k h ks v o e = elim (Bool-cases (k == o)) [
    | inl same ↦ absurd (let both : false ≡ true = sym e ∙ elem-last o k ks same in cc)
    | inr other ↦
        lookup-insert s.handlers k o h ∙ rw other (v.others o (sym (elem-other o k ks other) ∙ e))
  ]

  inserted-added :
      (s0 s : RpcServer H) (k : Text) (h : H) (ks : List Text)
      → IsAdded s0 s ks
      → lookup k s.handlers ≡ none
      → elem k ks ≡ false
      → (o : Text) → elem o (ks ++ k ∷ []) ≡ true
      → (lookup o s0.handlers ≡ none) × ((g : H) × (lookup o (insert k h s.handlers) ≡ some g))
  inserted-added s0 s k h ks v fresh new o e = elim (Bool-cases (k == o)) [
    | inl same ↦ (
      subst (λ x. lookup x s0.handlers ≡ none) ((text_equality.decides _ _).0 same)
          (sym (v.others k new) ∙ fresh),
      (h, lookup-insert s.handlers k o h ∙ rw same refl),
    )
    | inr other ↦
        let (before, (g, at)) = v.added o (sym (elem-other o k ks other) ∙ e) in
        (before, (g, lookup-insert s.handlers k o h ∙ rw other at))
  ]

  pub insert-IsAdded :
      (s0 s : RpcServer H) (k : Text) (h : H) (ks : List Text)
      → IsAdded s0 s ks
      → lookup k s.handlers ≡ none
      → IsAdded s0
          (record s { handlers = insert k h s.handlers; active = s.active + 1 })
          (ks ++ k ∷ [])
  insert-IsAdded s0 s k h ks v fresh =
      let new : elem k ks ≡ false = elim (Bool-cases (elem k ks)) [
        | inl e ↦
            absurd
              (let (x, (g, at)) = v.added k e in let both : none ≡ some g = sym fresh ∙ at in cc)
        | inr e ↦ e
      ] in
      record {
        active_more =
            let more = v.active_more in let longer = length-append ks (k ∷ []) in omega arith;
        shutdown_same = v.shutdown_same;
        distinct = Distinct-append k ks v.distinct new;
        others = λ o e. inserted-others s0 s k h ks v o e;
        added = λ o e. inserted-added s0 s k h ks v fresh new o e;
      }
