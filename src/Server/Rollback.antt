-- ===== src/Server/Rollback.antt =====
-- pkg/server/registration.go: a registration of several handlers of which one fails.
use mathlib.Core.List.{append-nil, append_assoc}
use livekit_psrpc.Prelude.{
  ◌+◌, ◌≡◌, ◌⊎◌, inl, inr, refl, sym, ap, ◌∙◌, subst, true, false, List, [], ◌∷◌, ◌++◌, Option,
  none, some, Result, Result-cases, lookup, insert, Text, text_equality, Bool-cases, Option-cases,
  arith,
}
use livekit_psrpc.Errors.Value.{GoError}
use livekit_psrpc.Server.Registry.{
  RpcServer, Registerer, err_server_closed, handler_exists, register_handler, deregister_handler,
  deregister_all, register_from, register_all,
}
use livekit_psrpc.Server.Added.{IsAdded, deregister-IsAdded, registered, insert-IsAdded}

-- The registry answers as before, with as many active handlers, and is open or closed as before.
abbrev pub IsRestored : {H : Type 0} → RpcServer H → RpcServer H → Type 0
IsRestored s0 s =
    (s.active ≡ s0.active)
    × (s.shutdown ≡ s0.shutdown)
    × ((k : Text) → lookup k s.handlers ≡ lookup k s0.handlers)

module _ {H D : Type 0} where
  -- The registration of a handler under a key, as the generated code makes it.
  abbrev pub registerer : Text × Result (GoError D) H → Registerer (RpcServer H) (GoError D)
  registerer (key, created) = record {
    register = λ s. register_handler key created s;
    deregister = λ s. deregister_handler key s;
  }

  abbrev pub registerers :
      List (Text × Result (GoError D) H) → List (Registerer (RpcServer H) (GoError D))
  registerers [] = []
  registerers (k ∷ ks) = registerer k ∷ registerers ks

  abbrev pub keys : List (Text × Result (GoError D) H) → List Text
  keys [] = []
  keys ((k, c) ∷ ks) = k ∷ keys ks

  undone :
      (ks : List (Text × Result (GoError D) H)) (s0 s : RpcServer H)
      → IsAdded s0 s (keys ks)
      → IsRestored s0 (deregister_all (registerers ks) s)
  unfolding deregister_all
  undone [] s0 s v =
      (let more = v.active_more in omega arith, v.shutdown_same, λ k. v.others k refl)
  undone ((k, c) ∷ ks) s0 s v =
      undone ks s0 (deregister_handler k s) (deregister-IsAdded s0 s k (keys ks) v)

  -- A registration that failed has changed nothing.
  failed_same :
      (key : Text) (created : Result (GoError D) H) (s : RpcServer H)
      → ((e : GoError D) × (register_handler key created s ≡ (s, some e)))
        ⊎ ((h : H) × (lookup key s.handlers ≡ none)
            × (register_handler key created s
                ≡ (record s { handlers = insert key h s.handlers; active = s.active + 1 }, none)))
  unfolding register_handler
  failed_same key created s = elim (Bool-cases s.shutdown) [
    | inl c ↦ inl (err_server_closed, simp (c, register_handler) refl)
    | inr c ↦ elim (Option-cases (lookup key s.handlers)) [
      | inr (h, e) ↦ inl (handler_exists, simp (c, e, register_handler) refl)
      | inl e ↦ elim (Result-cases created) [
        | inl (h, k) ↦ inr (h, e, ap (λ x. register_handler key x s) k ∙ registered s key h c e)
        | inr (x, k) ↦ inl (x, simp (c, e, k, register_handler) refl)
      ]
    ]
  ]

  registerers-append :
      (ks : List (Text × Result (GoError D) H)) (k : Text × Result (GoError D) H)
      → registerers (ks ++ k ∷ []) ≡ registerers ks ++ registerer k ∷ []
  registerers-append [] k = refl
  registerers-append (j ∷ ks) k = ap (λ rs. registerer j ∷ rs) (registerers-append ks k)

  keys-append : (ks js : List (Text × Result (GoError D) H)) → keys (ks ++ js) ≡ keys ks ++ keys js
  keys-append [] js = refl
  keys-append ((k, c) ∷ ks) js = ap (λ x. k ∷ x) (keys-append ks js)

  abbrev Ended :
      List (Text × Result (GoError D) H) → RpcServer H → RpcServer H × Option (GoError D) → Type 0
  Ended ks s0 (s, failed) =
      ((failed ≡ none) × IsAdded s0 s (keys ks))
      ⊎ ((e : GoError D) × (failed ≡ some e) × IsRestored s0 s)

  from_failed :
      (before after : List (Registerer (RpcServer H) (GoError D)))
      (r : Registerer (RpcServer H) (GoError D)) (s : RpcServer H) (e : GoError D)
      → r.register s ≡ (s, some e)
      → register_from before (r ∷ after) s ≡ (deregister_all before s, some e)
  unfolding register_from
  from_failed before after r s e h =
      rw (h, register_from) (ap (λ x. (deregister_all before x.0, some e)) h)

  from_ok :
      (before after : List (Registerer (RpcServer H) (GoError D)))
      (r : Registerer (RpcServer H) (GoError D)) (s s' : RpcServer H)
      → r.register s ≡ (s', none)
      → register_from before (r ∷ after) s ≡ register_from (before ++ r ∷ []) after s'
  unfolding register_from
  from_ok before after r s s' h =
      rw (h, register_from) (ap (λ x. register_from (before ++ r ∷ []) after x.0) h)

  from_lem :
      (before ks : List (Text × Result (GoError D) H)) (s0 s : RpcServer H)
      → IsAdded s0 s (keys before)
      → Ended (before ++ ks) s0 (register_from (registerers before) (registerers ks) s)
  unfolding register_from
  from_lem before [] s0 s v =
      inl (refl, subst (λ x. IsAdded s0 s (keys x)) (sym (append-nil before)) v)
  from_lem before ((k, c) ∷ ks) s0 s v = elim (failed_same k c s) [
    | inl (e, h) ↦
        subst (Ended (before ++ (k, c) ∷ ks) s0)
          (sym (from_failed (registerers before) (registerers ks) (registerer (k, c)) s e h))
          (inr (e, refl, undone before s0 s v))
    | inr (g, fresh, h) ↦
        let s' : RpcServer H = record s {
          handlers = insert k g s.handlers;
          active = s.active + 1;
        } in
        let more : IsAdded s0 s' (keys (before ++ (k, c) ∷ [])) =
          subst (IsAdded s0 s') (sym (keys-append before ((k, c) ∷ [])))
            (insert-IsAdded s0 s k g (keys before) v fresh) in
        let rest = from_lem (before ++ (k, c) ∷ []) ks s0 s' more in
        subst (Ended (before ++ (k, c) ∷ ks) s0)
          (sym (from_ok (registerers before) (registerers ks) (registerer (k, c)) s s' h))
          (subst (λ rs. Ended (before ++ (k, c) ∷ ks) s0 (register_from rs (registerers ks) s'))
            (registerers-append before (k, c))
            (subst
              (λ x.
                Ended x s0
                  (register_from (registerers (before ++ (k, c) ∷ [])) (registerers ks) s'))
              (append_assoc before ((k, c) ∷ []) ks) rest))
  ]

  -- A registration of several handlers either succeeds, and then every key is new and different from the
  -- others and has a handler, the other keys answer as before and as many handlers more are active, or
  -- it fails, and then the registry is as before: what was registered is deregistered again.
  pub register_all_lem :
      (ks : List (Text × Result (GoError D) H)) (s : RpcServer H)
      → ((register_all (registerers ks) s).1 ≡ none
          × IsAdded s (register_all (registerers ks) s).0 (keys ks))
        ⊎ ((e : GoError D) × ((register_all (registerers ks) s).1 ≡ some e)
            × IsRestored s (register_all (registerers ks) s).0)
  unfolding register_all
  register_all_lem ks s = from_lem [] ks s s (record {
    active_more = omega arith;
    shutdown_same = refl;
    distinct = tt;
    others = λ k e. refl;
    added = λ k e. absurd (let both : false ≡ true = e in cc);
  })
