-- ===== src/Metadata/Append.antt =====
-- pkg/metadata/metadata.go: what appending does to the metadata of a request.
use livekit_psrpc.Prelude.{
  inl, inr, lookup, lookup-insert, ◌==◌, if◌then◌else◌, ◌≡◌, ◌≢◌, refl, sym, ap, ◌∙◌, String, List,
  [], ◌∷◌, ◌++◌, Option, none, some, string_equality, Option-cases,
}
use livekit_psrpc.Metadata.Outgoing.{
  Metadata, CtxMd, Context, new_context_with_outgoing_metadata, base_of,
  append_metadata_to_outgoing_context, add_pairs, add_all, writes, Outgoing, panics, returns,
  outgoing_context_metadata,
}

-- The contexts that the two functions make.
pub data Made : Context → Type 0 where
  empty : Made none
  fresh : (md : Option Metadata) → Made (new_context_with_outgoing_metadata md)
  appended :
      (kv : List String) (ctx : Context)
      → Made ctx
      → Made (append_metadata_to_outgoing_context kv ctx)

-- What a context sends, an empty map for a nil one.
abbrev pub sends : Outgoing → Metadata
sends panics = []
sends (returns none) = []
sends (returns (some m)) = m

add_all-append :
    (added : List (List String)) (kv : List String) (m : Metadata)
    → add_all (added ++ kv ∷ []) m ≡ add_pairs kv (add_all added m)
unfolding add_all
add_all-append [] kv m = refl
add_all-append (a ∷ added) kv m = add_all-append added kv (add_pairs a m)

no_map :
    (kv : List String) (c : CtxMd)
    → c.md ≡ none
    → (append_metadata_to_outgoing_context kv (some c)
        ≡ some (record { md = some []; added = kv ∷ [] }))
      × (sends (outgoing_context_metadata (some c)) ≡ [])
unfolding append_metadata_to_outgoing_context outgoing_context_metadata base_of
no_map kv c e = (
  simp (e, append_metadata_to_outgoing_context) refl,
  elim (Option-cases (writes c.added)) [
    | inl w ↦ simp (e, w, outgoing_context_metadata) refl
    | inr (l, w) ↦ simp (e, w, outgoing_context_metadata) refl
  ],
)

a_map :
    (kv : List String) (c : CtxMd) (m : Metadata)
    → c.md ≡ some m
    → (append_metadata_to_outgoing_context kv (some c)
        ≡ some (record c { added = c.added ++ kv ∷ [] }))
      × (outgoing_context_metadata (some c) ≡ returns (some (add_all c.added m)))
unfolding append_metadata_to_outgoing_context outgoing_context_metadata base_of
a_map kv c m e =
    (simp (e, append_metadata_to_outgoing_context) refl, simp (e, outgoing_context_metadata) refl)

map_sends :
    (md : Option Metadata) (added : List (List String)) (m : Metadata)
    → md ≡ some m
    → outgoing_context_metadata (some (record { md = md; added = added }))
      ≡ returns (some (add_all added m))
unfolding outgoing_context_metadata
map_sends md added m e = rw (e, outgoing_context_metadata) refl

-- A request of a context to which pairs were appended sends what the context sent, with the pairs
-- written over it in their order; appending to a context without a map starts an empty one.
pub append_lem :
    (kv : List String) (ctx : Context)
    → outgoing_context_metadata (append_metadata_to_outgoing_context kv ctx)
      ≡ returns (some (add_pairs kv (sends (outgoing_context_metadata ctx))))
unfolding append_metadata_to_outgoing_context outgoing_context_metadata base_of add_all
append_lem kv none = refl
append_lem kv (some c) = elim (Option-cases c.md) [
  | inl e ↦
      let (made, silent) = no_map kv c e in
      ap outgoing_context_metadata made ∙ ap (λ m. returns (some (add_pairs kv m))) (sym silent)
  | inr (m, e) ↦
      let (made, sent) = a_map kv c m e in
      ap outgoing_context_metadata made
      ∙ map_sends c.md (c.added ++ kv ∷ []) m e
      ∙ ap (λ x. returns (some x)) (add_all-append c.added kv m)
      ∙ ap (λ o. returns (some (add_pairs kv (sends o)))) (sym sent)
]

-- Appending one pair to a context changes what its requests send under that key, and nothing else.
pub append_lookup :
    (k v other : String) (ctx : Context)
    → lookup other
        (sends (outgoing_context_metadata (append_metadata_to_outgoing_context (k ∷ v ∷ []) ctx)))
      ≡ (if k == other then some v else lookup other (sends (outgoing_context_metadata ctx)))
unfolding add_pairs
append_lookup k v other ctx =
    ap (λ o. lookup other (sends o)) (append_lem (k ∷ v ∷ []) ctx)
    ∙ lookup-insert (sends (outgoing_context_metadata ctx)) k other v

-- A request of a context that was made by the two functions never writes into a nil map.
pub Made-never_panics : (ctx : Context) → Made ctx → outgoing_context_metadata ctx ≢ panics
unfolding outgoing_context_metadata new_context_with_outgoing_metadata
Made-never_panics ctx empty e = cc
Made-never_panics ctx (fresh none) e = cc
Made-never_panics ctx (fresh (some m)) e = cc
Made-never_panics ctx (appended kv before made) e =
    let both : returns (some (add_pairs kv (sends (outgoing_context_metadata before)))) ≡ panics =
      sym (append_lem kv before) ∙ e in
    cc
