-- ===== src/Client/Multi.antt =====
-- pkg/client/multi.go: `multiRPC`, in steps of the client's routing, of the goroutine `handleResponses`
-- and of the caller, without interceptors.
use livekit_psrpc.Prelude.{
  ℕ, Bool, true, false, not, ◌&&◌, List, [], ◌∷◌, ◌++◌, Option, none, some, Result, if◌then◌else◌,
  ltb, length,
}
use livekit_psrpc.Errors.Value.{GoError}
use livekit_psrpc.Exchange.Wire.{Response, Codec}
use livekit_psrpc.Exchange.Call.{receive}

-- `inner` is the channel of responses, `sending` what `Recv` is to send, and `out` the channel that the
-- caller reads. The ghost fields have the responses that were routed to `inner`, and what
-- the caller has read.
pub record MultiRpc (M B D : Type 0) : Type 0 where
  pub channel_size : ℕ
  pub inner : List (Response B D)
  pub sending : Option (Result (GoError D) M)
  pub out : List (Result (GoError D) M)
  pub registered : Bool
  pub closed : Bool
  pub routed : List (Response B D)
  pub read : List (Result (GoError D) M)

abbrev pub is_some : {A : Type 0} → Option A → Bool
is_some none = false
is_some (some a) = true

module _ {M B D : Type 0} where
  -- `Send` has registered the channel of responses and started the goroutine.
  unfoldable pub new_multi : ℕ → MultiRpc M B D
  new_multi size = record {
    channel_size = size;
    inner = [];
    sending = none;
    out = [];
    registered = true;
    closed = false;
    routed = [];
    read = [];
  }

  unfoldable pub route_response : Response B D → MultiRpc M B D → Option (MultiRpc M B D)
  route_response res m =
      if not m.registered
      then some m
      else (if ltb (length m.inner) m.channel_size
          then some (record m { inner = m.inner ++ res ∷ []; routed = m.routed ++ res ∷ [] })
          else none)

  -- `Recv` of the message taken. `none` waits for the caller.
  unfoldable pub recv : MultiRpc M B D → Option (MultiRpc M B D)
  recv m = elim m.sending [
    | none ↦ none
    | some r ↦
        if ltb (length m.out) m.channel_size
        then some (record m { out = m.out ++ r ∷ []; sending = none })
        else none
  ]

  -- The timer or the context ends the loop with `Close`.
  unfoldable pub close_multi : MultiRpc M B D → Option (MultiRpc M B D)
  close_multi m =
      if not m.closed && not (is_some m.sending)
      then some (record m { registered = false; closed = true })
      else none

  unfoldable pub read_out : MultiRpc M B D → Option (MultiRpc M B D)
  read_out m = elim m.out [
    | [] ↦ none
    | r ∷ rs ↦ some (record m { out = rs; read = m.read ++ r ∷ [] })
  ]

module _ {M B D : Type 0} (codec : Codec M B D) where
  -- The loop takes a response and decodes it.
  unfoldable pub take_response : MultiRpc M B D → Option (MultiRpc M B D)
  unfolding receive
  take_response m = if m.closed then none else elim m.sending [
    | some r ↦ none
    | none ↦ elim m.inner [
      | [] ↦ none
      | res ∷ rest ↦ some (record m { inner = rest; sending = some (receive codec res) })
    ]
  ]
