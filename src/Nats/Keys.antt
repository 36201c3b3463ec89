-- ===== src/Nats/Keys.antt =====
-- internal/bus/bus_nats.go: keys of the map of routers.
use livekit_psrpc.Prelude.{
  ◌≡◌, refl, sym, ◌∙◌, ap, ℕ, String, true, false, List, none, some, ◌==◌, nat_equality,
  string_equality, inl, inr, Bool-cases, lookup, insert, lookup-insert,
}

pub lookup-insert_other :
    (c o : String) (v : ℕ) (m : List (String × ℕ))
    → (c == o) ≡ false
    → lookup o (insert c v m) ≡ lookup o m
lookup-insert_other c o v m e = lookup-insert m c o v ∙ rw e refl

pub lookup-insert_same :
    (c o : String) (v : ℕ) (m : List (String × ℕ))
    → (c == o) ≡ true
    → lookup o (insert c v m) ≡ some v
lookup-insert_same c o v m e = lookup-insert m c o v ∙ rw e refl

-- A key that is missing differs from one that is there.
pub apart :
    (c o : String) (j : ℕ) (m : List (String × ℕ))
    → lookup c m ≡ none
    → lookup o m ≡ some j
    → (c == o) ≡ false
apart c o j m e f = elim (Bool-cases (c == o)) [
  | inl same ↦ absurd (
      let y : lookup c m ≡ lookup o m =
        ap (λ z. lookup z m) ((string_equality.decides c o).0 same) in
      cc)
  | inr other ↦ other
]

-- Keys with different values differ.
pub differ :
    (c o : String) (i j : ℕ) (m : List (String × ℕ))
    → lookup c m ≡ some i
    → lookup o m ≡ some j
    → (i == j) ≡ false
    → (c == o) ≡ false
differ c o i j m e f ne = elim (Bool-cases (c == o)) [
  | inl same ↦
      let y : lookup c m ≡ lookup o m =
        ap (λ z. lookup z m) ((string_equality.decides c o).0 same) in
      let k : some i ≡ some j = sym e ∙ y ∙ f in
      let l : i ≡ j = cc in
      absurd (let both : true ≡ false = sym ((nat_equality.decides i j).1 l) ∙ ne in cc)
  | inr other ↦ other
]

-- Values that a function tells apart differ.
pub told_apart :
    (f : ℕ → String) (i j : ℕ) (c d : String)
    → f i ≡ c
    → f j ≡ d
    → (c == d) ≡ false
    → (i == j) ≡ false
told_apart f i j c d e g ne = elim (Bool-cases (i == j)) [
  | inl same ↦
      let l : c ≡ d = sym e ∙ ap f ((nat_equality.decides i j).0 same) ∙ g in
      absurd (let both : true ≡ false = sym ((string_equality.decides c d).1 l) ∙ ne in cc)
  | inr other ↦ other
]
