-- ===== src/Metadata/Outgoing.antt =====
-- pkg/metadata/metadata.go: the metadata of outgoing requests. A context is the value that it holds
-- under metadataKey, if any; a nil map is `none`.
use livekit_psrpc.Prelude.{String, List, [], ◌∷◌, ◌++◌, Option, none, some, insert, string_equality}

abbrev pub Metadata : Type 0
Metadata = List (String × String)

pub record CtxMd : Type 0 where
  pub md : Option Metadata
  pub added : List (List String)

abbrev pub Context : Type 0
Context = Option CtxMd

unfoldable pub new_context_with_outgoing_metadata : Option Metadata → Context
new_context_with_outgoing_metadata md = some (record { md = md; added = [] })

-- `if !ok || md.md == nil`.
unfoldable pub base_of : Context → CtxMd
base_of none = record { md = some []; added = [] }
base_of (some c) = elim c.md [ none ↦ record { md = some []; added = [] } | some m ↦ c ]

unfoldable pub append_metadata_to_outgoing_context : List String → Context → Context
unfolding base_of
append_metadata_to_outgoing_context kv ctx =
    let base = base_of ctx in some (record base { added = base.added ++ kv ∷ [] })

-- The pairs of one call, written into the map; a last key without a value is left out.
unfoldable pub add_pairs : List String → Metadata → Metadata
add_pairs [] m = m
add_pairs (k ∷ []) m = m
add_pairs (k ∷ v ∷ kv) m = add_pairs kv (insert k v m)

unfoldable pub add_all : List (List String) → Metadata → Metadata
unfolding add_pairs
add_all [] m = m
add_all (kv ∷ added) m = add_all added (add_pairs kv m)

-- `panics` is a write into a nil map.
pub data Outgoing : Type 0 where
  panics : Outgoing
  returns : Option Metadata → Outgoing

-- Whether a list of calls writes a pair at all.
unfoldable pub writes : List (List String) → Option (List String)
writes [] = none
writes ((k ∷ v ∷ kv) ∷ added) = some (k ∷ v ∷ kv)
writes ((k ∷ []) ∷ added) = writes added
writes ([] ∷ added) = writes added

unfoldable pub outgoing_context_metadata : Context → Outgoing
unfolding add_all writes
outgoing_context_metadata none = returns none
outgoing_context_metadata (some c) = elim c.md [
  | some m ↦ returns (some (add_all c.added m))
  | none ↦ elim (writes c.added) [ none ↦ returns none | some kv ↦ panics ]
]
