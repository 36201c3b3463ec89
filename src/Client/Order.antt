-- ===== src/Client/Order.antt =====
-- pkg/client/multi.go: the responses of a multi request.
use livekit_psrpc.Prelude.{
  some-injective, ◌≡◌, refl, sym, ◌∙◌, ap, subst, ℕ, true, false, not, ◌&&◌, List, [], ◌∷◌, ◌++◌,
  Option, none, some, Result, ltb, length, map, inl, inr, Bool-cases, arith,
}
use mathlib.Core.List.{append_assoc, map-append}
use livekit_psrpc.Errors.Value.{GoError}
use livekit_psrpc.Exchange.Wire.{Response, Codec}
use livekit_psrpc.Exchange.Call.{receive}
use livekit_psrpc.Client.Multi.{
  MultiRpc, is_some, new_multi, route_response, recv, close_multi, read_out, take_response,
}

module _ {M B D : Type 0} (codec : Codec M B D) where
  -- The states that the steps lead to, in any order.
  pub data MultiReach (size : ℕ) : MultiRpc M B D → Type 0 where
    begins : MultiReach size (new_multi size)
    routes :
        {m m' : MultiRpc M B D}
        → (res : Response B D) → MultiReach size m
        → route_response res m ≡ some m'
        → MultiReach size m'
    takes :
        {m m' : MultiRpc M B D}
        → MultiReach size m
        → take_response codec m ≡ some m'
        → MultiReach size m'
    gives : {m m' : MultiRpc M B D} → MultiReach size m → recv m ≡ some m' → MultiReach size m'
    reads : {m m' : MultiRpc M B D} → MultiReach size m → read_out m ≡ some m' → MultiReach size m'
    ends :
        {m m' : MultiRpc M B D} → MultiReach size m → close_multi m ≡ some m' → MultiReach size m'

  abbrev pub as_list : {A : Type 0} → Option A → List A
  as_list none = []
  as_list (some a) = a ∷ []

  -- What the caller has read and can read, what is to be sent and what is to be taken is what was routed,
  -- and nothing is to be sent on a channel that is closed.
  pub record MultiInv (m : MultiRpc M B D) : Type 0 where
    pub in_order :
        m.read ++ m.out ++ as_list m.sending ++ map (receive codec) m.inner
        ≡ map (receive codec) m.routed
    pub silent : m.closed ≡ true → m.sending ≡ none
    pub unregistered : m.registered ≡ not m.closed

  routed_more :
      (m : MultiRpc M B D) (res : Response B D)
      → MultiInv m
      → m.read ++ m.out ++ as_list m.sending ++ map (receive codec) (m.inner ++ res ∷ [])
        ≡ map (receive codec) (m.routed ++ res ∷ [])
  routed_more m res h =
      let front = m.read ++ m.out ++ as_list m.sending in
      let new = receive codec res ∷ [] in
      ap (λ x. front ++ x) (map-append (receive codec) m.inner (res ∷ []))
      ∙ sym (append_assoc front (map (receive codec) m.inner) new)
      ∙ ap (λ x. x ++ new) h.in_order
      ∙ sym (map-append (receive codec) m.routed (res ∷ []))

  taken_more :
      (m : MultiRpc M B D) (res : Response B D) (rest : List (Response B D))
      → m.inner ≡ res ∷ rest
      → m.sending ≡ none
      → MultiInv m
      → m.read ++ m.out ++ (receive codec res ∷ []) ++ map (receive codec) rest
        ≡ map (receive codec) m.routed
  taken_more m res rest i s h =
      let k : m.read ++ m.out ++ [] ++ (receive codec res ∷ map (receive codec) rest)
          ≡ map (receive codec) m.routed =
        rw (i, s) at h.in_order in
      let l : m.read ++ m.out ++ (receive codec res ∷ []) ++ map (receive codec) rest
          ≡ m.read ++ m.out ++ [] ++ (receive codec res ∷ map (receive codec) rest) =
        simp append_assoc refl in
      l ∙ k

  route-MultiInv :
      (res : Response B D) (m m' : MultiRpc M B D)
      → route_response res m ≡ some m'
      → MultiInv m
      → MultiInv m'
  unfolding route_response
  route-MultiInv res m m' e h = elim (Bool-cases m.registered) [
    | inr off ↦
        subst MultiInv
          (let y : route_response res m ≡ some m = simp (off, route_response) refl in
            some-injective m m' (sym y ∙ e))
          h
    | inl on ↦ elim (Bool-cases (ltb (length m.inner) m.channel_size)) [
      | inr full ↦
          (let y : route_response res m ≡ none = simp (on, full, route_response) refl in cc)
      | inl room ↦
          let t : MultiRpc M B D = record m {
            inner = m.inner ++ res ∷ [];
            routed = m.routed ++ res ∷ [];
          } in
          let y : route_response res m ≡ some t = simp (on, room, route_response) refl in
          subst MultiInv (some-injective t m' (sym y ∙ e)) (record {
            in_order = routed_more m res h;
            silent = h.silent;
            unregistered = h.unregistered;
          })
    ]
  ]

  take-MultiInv :
      (m m' : MultiRpc M B D) (inner : List (Response B D))
      (sending : Option (Result (GoError D) M))
      → m.inner ≡ inner
      → m.sending ≡ sending
      → take_response codec m ≡ some m'
      → MultiInv m
      → MultiInv m'
  unfolding take_response
  take-MultiInv m m' inner sending i s e h = elim (Bool-cases m.closed) [
    | inl over ↦ (let y : take_response codec m ≡ none = simp (over, take_response) refl in cc)
    | inr live ↦ taken inner sending i s live
  ]
    where
      taken :
          (inner : List (Response B D)) (sending : Option (Result (GoError D) M))
          → m.inner ≡ inner
          → m.sending ≡ sending
          → m.closed ≡ false
          → MultiInv m'
      taken inner (some r) i s live =
          (let y : take_response codec m ≡ none = simp (live, s, take_response) refl in cc)
      taken [] none i s live =
          (let y : take_response codec m ≡ none = simp (live, s, i, take_response) refl in cc)
      taken (res ∷ rest) none i s live =
          let t : MultiRpc M B D = record m { inner = rest; sending = some (receive codec res) } in
          let y : take_response codec m ≡ some t = simp (live, s, i, take_response) refl in
          subst MultiInv (some-injective t m' (sym y ∙ e)) (record {
            in_order = taken_more m res rest i s h;
            silent = λ c. absurd (let both : true ≡ false = sym c ∙ live in cc);
            unregistered = h.unregistered;
          })

  recv-MultiInv :
      (m m' : MultiRpc M B D) (sending : Option (Result (GoError D) M))
      → m.sending ≡ sending
      → recv m ≡ some m'
      → MultiInv m
      → MultiInv m'
  unfolding recv
  recv-MultiInv m m' none s e h = (let y : recv m ≡ none = simp (s, recv) refl in cc)
  recv-MultiInv m m' (some r) s e h = elim (Bool-cases (ltb (length m.out) m.channel_size)) [
    | inr full ↦ (let y : recv m ≡ none = simp (s, full, recv) refl in cc)
    | inl room ↦
        let t : MultiRpc M B D = record m { out = m.out ++ r ∷ []; sending = none } in
        let y : recv m ≡ some t = simp (s, room, recv) refl in
        let k : m.read ++ m.out ++ (r ∷ []) ++ map (receive codec) m.inner
            ≡ map (receive codec) m.routed =
          rw s at h.in_order in
        let l : m.read ++ (m.out ++ r ∷ []) ++ [] ++ map (receive codec) m.inner
            ≡ m.read ++ m.out ++ (r ∷ []) ++ map (receive codec) m.inner =
          simp append_assoc refl in
        subst MultiInv (some-injective t m' (sym y ∙ e))
          (record { in_order = l ∙ k; silent = λ c. refl; unregistered = h.unregistered })
  ]

  read-MultiInv :
      (m m' : MultiRpc M B D) (out : List (Result (GoError D) M))
      → m.out ≡ out
      → read_out m ≡ some m'
      → MultiInv m
      → MultiInv m'
  unfolding read_out
  read-MultiInv m m' [] o e h = (let y : read_out m ≡ none = simp (o, read_out) refl in cc)
  read-MultiInv m m' (r ∷ rs) o e h =
      let t : MultiRpc M B D = record m { out = rs; read = m.read ++ r ∷ [] } in
      let y : read_out m ≡ some t = simp (o, read_out) refl in
      let behind = as_list m.sending in
      let last = map (receive codec) m.inner in
      let k : m.read ++ (r ∷ rs) ++ behind ++ last ≡ map (receive codec) m.routed =
        rw o at h.in_order in
      let l : (m.read ++ r ∷ []) ++ rs ++ behind ++ last ≡ m.read ++ (r ∷ rs) ++ behind ++ last =
        simp append_assoc refl in
      subst MultiInv (some-injective t m' (sym y ∙ e))
        (record { in_order = l ∙ k; silent = h.silent; unregistered = h.unregistered })

  sending_none : (o : Option (Result (GoError D) M)) → not (is_some o) ≡ true → o ≡ none
  sending_none none e = refl
  sending_none (some r) e = cc

  close-MultiInv : (m m' : MultiRpc M B D) → close_multi m ≡ some m' → MultiInv m → MultiInv m'
  unfolding close_multi
  close-MultiInv m m' e h = elim (Bool-cases (not m.closed && not (is_some m.sending))) [
    | inr off ↦ (let y : close_multi m ≡ none = simp (off, close_multi) refl in cc)
    | inl on ↦
        let t : MultiRpc M B D = record m { registered = false; closed = true } in
        let y : close_multi m ≡ some t = simp (on, close_multi) refl in
        subst MultiInv (some-injective t m' (sym y ∙ e)) (record {
          in_order = h.in_order;
          silent = λ c. sending_none m.sending (ground arith);
          unregistered = refl;
        })
  ]

  -- In every state that a multi request reaches, what its caller has read, then what is in the channel
  -- that the caller reads, is to be sent on it, or is to be taken, is what was routed to the request,
  -- decoded, each response once and in order. Behind its end nothing is to be sent on the channel that it
  -- has closed, and it is no longer registered.
  pub MultiReach-MultiInv : (size : ℕ) (m : MultiRpc M B D) → MultiReach size m → MultiInv m
  unfolding new_multi
  MultiReach-MultiInv size m begins = record {
    in_order = refl;
    silent = λ c. refl;
    unregistered = refl;
  }
  MultiReach-MultiInv size m (routes {m = before} res reach e) =
      route-MultiInv res before m e (MultiReach-MultiInv size before reach)
  MultiReach-MultiInv size m (takes {m = before} reach e) =
      take-MultiInv before m before.inner before.sending refl refl e
        (MultiReach-MultiInv size before reach)
  MultiReach-MultiInv size m (gives {m = before} reach e) =
      recv-MultiInv before m before.sending refl e (MultiReach-MultiInv size before reach)
  MultiReach-MultiInv size m (reads {m = before} reach e) =
      read-MultiInv before m before.out refl e (MultiReach-MultiInv size before reach)
  MultiReach-MultiInv size m (ends {m = before} reach e) =
      close-MultiInv before m e (MultiReach-MultiInv size before reach)
