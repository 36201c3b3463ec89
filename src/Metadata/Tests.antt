-- ===== src/Metadata/Tests.antt =====
-- pkg/metadata/metadata.go: runs of appending metadata, and instances of its theorems.
use livekit_psrpc.Prelude.{◌≡◌, refl, [], ◌∷◌, some, lookup, string_equality}
use livekit_psrpc.Metadata.Outgoing.{
  Context, base_of, append_metadata_to_outgoing_context, add_pairs, add_all, returns,
  outgoing_context_metadata,
}
use livekit_psrpc.Metadata.Append.{sends, append_lookup}

abbrev tracing : Context
tracing = some (record { md = some (("trace", "1") ∷ []); added = [] })

odd_run :
    outgoing_context_metadata
      (append_metadata_to_outgoing_context ("trace" ∷ "2" ∷ "user" ∷ []) tracing)
    ≡ returns (some (("trace", "2") ∷ []))
unfolding outgoing_context_metadata append_metadata_to_outgoing_context base_of add_all add_pairs
odd_run = refl

append_lookup_example :
    lookup "user" (
      sends (
        outgoing_context_metadata
          (append_metadata_to_outgoing_context ("user" ∷ "x" ∷ []) tracing)))
    ≡ some "x"
append_lookup_example = append_lookup "user" "x" "user" tracing
