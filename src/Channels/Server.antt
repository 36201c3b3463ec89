-- ===== src/Channels/Server.antt =====
-- pkg/info/channels.go: the server channels, where the mark of a queue is not told from a topic.
use mathlib.Core.List.{append_assoc}
use livekit_psrpc.Prelude.{◌≡◌, refl, sym, ◌∙◌, true, false, List, [], ◌∷◌, ◌++◌, Text, runes}
use livekit_psrpc.Channels.Format.{
  append_topic, append_sanitized_channel_part, format_server_channel,
}
use livekit_psrpc.Channels.Names.{RequestInfo, get_rpc_channel}

append_topic-append :
    (ts us : List Text) (buf : Text)
    → append_topic buf (ts ++ us) ≡ append_topic (append_topic buf ts) us
unfolding append_topic
append_topic-append [] us buf = refl
append_topic-append (t ∷ ts) us buf = append_topic-append ts us _

queue_mark :
    (service : Text) (topic : List Text)
    → format_server_channel service topic true
      ≡ format_server_channel service (topic ++ runes "Q" ∷ []) false
unfolding format_server_channel append_topic append_sanitized_channel_part
queue_mark service topic = sym (
    append_topic-append topic (runes "Q" ∷ []) (runes "SRV." ++ service)
    ∙ append_assoc (append_topic (runes "SRV." ++ service) topic) (runes ".") (runes "Q"))

-- A request to a queue and a request of the same service to no queue, whose topic has one more entry
-- `Q`, use the same server channel.
pub queue_channel-collides :
    (i j : RequestInfo)
    → i.service ≡ j.service
    → i.queue ≡ true
    → j.queue ≡ false
    → j.topic ≡ i.topic ++ runes "Q" ∷ []
    → (get_rpc_channel i).server ≡ (get_rpc_channel j).server
unfolding get_rpc_channel
queue_channel-collides i j service queued plain topic = cc (queue_mark i.service i.topic)
