-- ===== src/Client/Routing.antt =====
-- pkg/client/client.go: `RPCClient`, and the goroutine that moves messages to the calls that wait.
use livekit_psrpc.Prelude.{
  ◌≡◌, ◌⊎◌, refl, suc, sym, ◌∙◌, ap, ℕ, ◌≤◌, String, Bool, true, false, List, [], ◌∷◌, ◌++◌, Option,
  none, some, ◌==◌, string_equality, if◌then◌else◌, ltb, length, lookup, insert, lookup-insert, inl,
  inr, Bool-cases, Option-cases, arith,
}

-- A buffered channel.
pub record Chan (A : Type 0) : Type 0 where
  pub size : ℕ
  pub buffer : List A

pub record RpcClient (Q R S : Type 0) : Type 0 where
  pub claim_requests : List (String × Chan Q)
  pub response_channels : List (String × Chan R)
  pub stream_channels : List (String × Chan S)
  pub closed : Bool
  pub subscribed : Bool

module _ {A : Type 0} where
  -- A send, which blocks (`none`) if the channel is full.
  unfoldable pub send_to : A → Chan A → Option (Chan A)
  send_to a c =
      if ltb (length c.buffer) c.size then some (record c { buffer = c.buffer ++ a ∷ [] }) else none

  -- A message for the call that waits under its key; without one it is dropped.
  unfoldable pub route_to : String → A → List (String × Chan A) → Option (List (String × Chan A))
  unfolding send_to
  route_to key a m = elim (lookup key m) [
    | none ↦ some m
    | some c ↦ elim (send_to a c) [ none ↦ none | some c' ↦ some (insert key c' m) ]
  ]

-- What the `select` of the goroutine takes. `none` is the nil of a subscription that has ended.
pub data Incoming (Q R S : Type 0) : Type 0 where
  claim_in : Option (String × Q) → Incoming Q R S
  response_in : Option (String × R) → Incoming Q R S
  stream_in : Option (String × S) → Incoming Q R S
  closed_in : Incoming Q R S

module _ {Q R S : Type 0} where
  unfoldable pub close_client : RpcClient Q R S → RpcClient Q R S
  close_client c = record c { closed = true }

  -- A turn of its loop: `none` blocks, or cannot be taken.
  unfoldable pub turn : Incoming Q R S → RpcClient Q R S → Option (RpcClient Q R S)
  unfolding route_to close_client
  turn (claim_in none) c = some (close_client c)
  turn (claim_in (some (key, q))) c = elim (route_to key q c.claim_requests) [
    | none ↦ none
    | some m ↦ some (record c { claim_requests = m })
  ]
  turn (response_in none) c = some (close_client c)
  turn (response_in (some (key, r))) c = elim (route_to key r c.response_channels) [
    | none ↦ none
    | some m ↦ some (record c { response_channels = m })
  ]
  turn (stream_in none) c = some (close_client c)
  turn (stream_in (some (key, s))) c = elim (route_to key s c.stream_channels) [
    | none ↦ none
    | some m ↦ some (record c { stream_channels = m })
  ]
  turn closed_in c = if c.closed then some (record c { subscribed = false }) else none

module _ {A : Type 0} where
  abbrev pub pushed : A → Option (Chan A) → Option (Chan A)
  pushed a none = none
  pushed a (some c) = some (record c { buffer = c.buffer ++ a ∷ [] })

  lookup-same :
      (key other : String) (m : List (String × Chan A))
      → (key == other) ≡ true
      → lookup other m ≡ lookup key m
  lookup-same key other m e = ap (λ k. lookup k m) (sym ((string_equality.decides key other).0 e))

  dropped :
      (key other : String) (a : A) (m : List (String × Chan A))
      → lookup key m ≡ none
      → lookup other m ≡ (if key == other then pushed a (lookup other m) else lookup other m)
  dropped key other a m e = elim (Bool-cases (key == other)) [
    | inl same ↦
        let f : lookup other m ≡ none = lookup-same key other m same ∙ e in rw (same, f) refl
    | inr apart ↦ rw apart refl
  ]

  placed :
      (key other : String) (a : A) (m : List (String × Chan A)) (c : Chan A)
      → lookup key m ≡ some c
      → lookup other (insert key (record c { buffer = c.buffer ++ a ∷ [] }) m)
        ≡ (if key == other then pushed a (lookup other m) else lookup other m)
  placed key other a m c e = lookup-insert m key other _ ∙ (elim (Bool-cases (key == other)) [
    | inl same ↦
        let f : lookup other m ≡ some c = lookup-same key other m same ∙ e in rw (same, f) refl
    | inr apart ↦ rw apart refl
  ])

  -- No call waits, or its channel has room.
  abbrev pub HasRoom : Option (Chan A) → Type 0
  HasRoom none = Unit
  HasRoom (some c) = suc (length c.buffer) ≤ c.size

  -- A message reaches the call that waits for its key and no other. Either that call's channel is full, and
  -- the send blocks; or no call waits, or its channel has room, and then the message is behind those that
  -- were there, or dropped if no call waits, and every other call's channel is as it was.
  pub route_to_lem :
      (key : String) (a : A) (m : List (String × Chan A))
      → ((c : Chan A) × (lookup key m ≡ some c)
          × (c.size ≤ length c.buffer)
          × (route_to key a m ≡ none))
        ⊎ ((m' : List (String × Chan A)) × (route_to key a m ≡ some m')
            × HasRoom (lookup key m)
            × ((other : String)
                → lookup other m'
                  ≡ (if key == other then pushed a (lookup other m) else lookup other m)))
  unfolding route_to send_to
  route_to_lem key a m = elim (Option-cases (lookup key m)) [
    | inl e ↦ inr (m, simp (e, route_to) refl, rw e tt, λ other. dropped key other a m e)
    | inr (c, e) ↦ elim (Bool-cases (ltb (length c.buffer) c.size)) [
      | inl room ↦ inr (
        insert key (record c { buffer = c.buffer ++ a ∷ [] }) m,
        simp (e, room, route_to) refl,
        rw e (ground arith),
        λ other. placed key other a m c e,
      )
      | inr full ↦ inl (c, e, ground arith, simp (e, full, route_to) refl)
    ]
  ]
