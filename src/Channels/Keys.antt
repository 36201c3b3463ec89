-- ===== src/Channels/Keys.antt =====
-- pkg/info/channels.go: the handler keys and the legacy channel names tell requests apart.
use mathlib.Core.List.{append-nil, append_assoc, append_cancel_right}
use livekit_psrpc.Prelude.{
  ℕ, ◌≡◌, ◌≢◌, refl, sym, ap, ◌∙◌, List, [], ◌∷◌, ◌++◌, map, true, false, arith, Every,
  Every-append, Text, runes, length, lt→ltb, concat-injective,
}
use livekit_psrpc.Channels.Format.{
  text, texts, format_channel, append_part, append_channel_parts, is_channel_char,
}
use livekit_psrpc.Channels.Names.{
  RequestInfo, get_handler_key, get_rpc_channel, get_claim_response_channel,
  get_stream_server_channel,
}
use livekit_psrpc.Channels.Sanitize.{
  IsRunes, sanitize, sanitize-injective, append_sanitized_lem, sanitize-ne-nil,
}
use livekit_psrpc.Channels.Join.{
  joined, IsPresent, IsDelimiter, append_channel_parts_lem, sanitized-injective, append_texts_lem,
  joined_split, joined-grows, sanitized-IsFree,
}

-- What the names need of a request: no empty text among those that they are made of, and only runes, as
-- a text of valid UTF-8 has.
pub record IsNamed (i : RequestInfo) : Type 0 where
  pub service_present : IsPresent i.service
  pub method_present : IsPresent i.method
  pub topic_present : Every IsPresent i.topic
  pub service_runes : IsRunes i.service
  pub method_runes : IsRunes i.method
  pub topic_runes : Every IsRunes i.topic

dot-IsDelimiter : IsDelimiter b'.'
unfolding is_channel_char
dot-IsDelimiter = (refl, ground arith)

bar-IsDelimiter : IsDelimiter b'|'
unfolding is_channel_char
bar-IsDelimiter = (refl, ground arith)

legacy_name : RequestInfo → Text → List Text
legacy_name i kind = i.service ∷ i.method ∷ (i.topic ++ kind ∷ [])

-- A legacy name is its sanitized texts between bars.
format_legacy :
    (i : RequestInfo) (kind : Text)
    → IsNamed i
    → IsPresent kind
    → format_channel b'|' (text i.service ∷ text i.method ∷ texts i.topic ∷ text kind ∷ [])
      ≡ joined false b'|' (map sanitize (legacy_name i kind))
unfolding format_channel legacy_name
format_legacy i kind h hk =
    append_channel_parts_lem (text i.service ∷ text i.method ∷ texts i.topic ∷ []) kind false []
      b'|' (h.service_present, (h.method_present, (h.topic_present, tt))) hk

-- The key is the method, a dot, and the topic.
handler_key_lem :
    (i : RequestInfo)
    → IsNamed i
    → get_handler_key i
      ≡ sanitize i.method ++ joined true b'.' (joined false b'.' (map sanitize i.topic) ∷ [])
unfolding get_handler_key format_channel append_channel_parts append_part joined
handler_key_lem i h =
    rw
      (
        append_sanitized_lem [] i.method,
        lt→ltb 0 (length (sanitize i.method)) (sanitize-ne-nil i.method h.method_present),
      )
      (append_texts_lem false (sanitize i.method ++ b'.' ∷ []) b'.' i.topic h.topic_present
        ∙ append_assoc (sanitize i.method) (b'.' ∷ []) _
        ∙ ap (λ r. sanitize i.method ++ (b'.' ∷ r)) (sym (append-nil _)))

joined_topic-injective :
    (ts us : List Text)
    → Every IsPresent ts
    → Every IsPresent us
    → Every IsRunes ts
    → Every IsRunes us
    → joined false b'.' (map sanitize ts) ≡ joined false b'.' (map sanitize us)
    → ts ≡ us
unfolding joined
joined_topic-injective [] [] pt pu ht hu e = refl
joined_topic-injective [] (u ∷ us) pt pu ht hu e =
    absurd (omega (arith, ap length e, joined-grows b'.' u us pu.0))
joined_topic-injective (t ∷ ts) [] pt pu ht hu e =
    absurd (omega (arith, ap length e, joined-grows b'.' t ts pt.0))
joined_topic-injective (t ∷ ts) (u ∷ us) pt pu ht hu e =
    sanitized-injective b'.' t u ts us dot-IsDelimiter ht hu e

joined_one-injective :
    (d : ℕ) (s t : Text) → joined true d (s ∷ []) ≡ joined true d (t ∷ []) → s ≡ t
unfolding joined
joined_one-injective d s t e = append_cancel_right s t [] (cc)

-- Two requests none of whose services, methods and topic entries is empty, all of them valid UTF-8, and
-- that have the same handler key, have the same method and the same topic: a registration of one never
-- takes the place of the other's.
pub handler_key-injective :
    (i j : RequestInfo)
    → IsNamed i
    → IsNamed j
    → get_handler_key i ≡ get_handler_key j
    → (i.method ≡ j.method) × (i.topic ≡ j.topic)
handler_key-injective i j hi hj e =
    let (method, rest) =
      joined_split b'.' (sanitize i.method) (sanitize j.method) _ _
        (sanitized-IsFree b'.' dot-IsDelimiter (i.method ∷ [])).0
        (sanitized-IsFree b'.' dot-IsDelimiter (j.method ∷ [])).0
        (sym (handler_key_lem i hi) ∙ e ∙ handler_key_lem j hj) in
    (
      sanitize-injective i.method j.method hi.method_runes hj.method_runes method,
      joined_topic-injective i.topic j.topic hi.topic_present hj.topic_present hi.topic_runes
          hj.topic_runes (joined_one-injective b'.' _ _ rest),
    )

legacy_name-IsRunes :
    (i : RequestInfo) (kind : Text) → IsNamed i → IsRunes kind → Every IsRunes (legacy_name i kind)
unfolding legacy_name
legacy_name-IsRunes i kind h hk = (
  h.service_runes,
  (h.method_runes, Every-append IsRunes i.topic (kind ∷ []) h.topic_runes (hk, tt)),
)

-- A legacy name tells the service, the method, the topic and the kind of channel.
legacy-injective :
    (i j : RequestInfo) (kind kind' : Text)
    → IsNamed i
    → IsNamed j
    → IsPresent kind
    → IsPresent kind'
    → IsRunes kind
    → IsRunes kind'
    → format_channel b'|' (text i.service ∷ text i.method ∷ texts i.topic ∷ text kind ∷ [])
      ≡ format_channel b'|' (text j.service ∷ text j.method ∷ texts j.topic ∷ text kind' ∷ [])
    → (i.service ≡ j.service) × (i.method ≡ j.method) × (i.topic ≡ j.topic) × (kind ≡ kind')
unfolding legacy_name
legacy-injective i j k k' hi hj pk pk' rk rk' e =
    let same =
      sanitized-injective b'|' i.service j.service (i.method ∷ (i.topic ++ k ∷ []))
        (j.method ∷ (j.topic ++ k' ∷ [])) bar-IsDelimiter (legacy_name-IsRunes i k hi rk)
        (legacy_name-IsRunes j k' hj rk')
        (sym (format_legacy i k hi pk) ∙ e ∙ format_legacy j k' hj pk') in
    let (topic, kind) = concat-injective i.topic j.topic k k' (cc same) in
    (cc same, cc same, topic, kind)

-- Two requests with the same legacy channel for requests have the same service, method and topic.
pub legacy_rpc_channel-injective :
    (i j : RequestInfo)
    → IsNamed i
    → IsNamed j
    → (get_rpc_channel i).legacy ≡ (get_rpc_channel j).legacy
    → (i.service ≡ j.service) × (i.method ≡ j.method) × (i.topic ≡ j.topic)
unfolding get_rpc_channel
legacy_rpc_channel-injective i j hi hj e =
    let same =
      legacy-injective i j (runes "REQ") (runes "REQ") hi hj (ground arith) (ground arith)
        (omega arith) (omega arith) e in
    (same.0, same.1, same.2)

-- The legacy channels for requests, for claim responses and for streams are never the same, whatever
-- the requests are.
pub legacy_channels-distinct :
    (i j : RequestInfo)
    → IsNamed i
    → IsNamed j
    → ((get_rpc_channel i).legacy ≢ (get_claim_response_channel j).legacy)
      × ((get_rpc_channel i).legacy ≢ (get_stream_server_channel j).legacy)
      × ((get_claim_response_channel i).legacy ≢ (get_stream_server_channel j).legacy)
unfolding get_rpc_channel get_claim_response_channel get_stream_server_channel
legacy_channels-distinct i j hi hj = (
  kinds-distinct i j (runes "REQ") (runes "RCLAIM") hi hj (ground arith) (ground arith)
      (omega arith) (omega arith) (ground arith),
  kinds-distinct i j (runes "REQ") (runes "STR") hi hj (ground arith) (ground arith) (omega arith)
      (omega arith) (ground arith),
  kinds-distinct i j (runes "RCLAIM") (runes "STR") hi hj (ground arith) (ground arith)
      (omega arith) (omega arith) (ground arith),
)
  where
    kinds-distinct :
        (i j : RequestInfo) (k k' : Text)
        → IsNamed i
        → IsNamed j
        → IsPresent k
        → IsPresent k'
        → IsRunes k
        → IsRunes k'
        → k ≢ k'
        → format_channel b'|' (text i.service ∷ text i.method ∷ texts i.topic ∷ text k ∷ [])
          ≢ format_channel b'|' (text j.service ∷ text j.method ∷ texts j.topic ∷ text k' ∷ [])
    kinds-distinct i j k k' hi hj pk pk' rk rk' ne e =
        ne (legacy-injective i j k k' hi hj pk pk' rk rk' e).3
