-- ===== src/Prelude/Maps.antt =====
-- Go's maps as association lists, over keys with a Boolean equality.
use mathlib.Core.Path.{◌≡◌, refl}
use mathlib.Core.Logic.{◌≢◌}
use mathlib.Core.List.{List, [], ◌∷◌}
use mathlib.Core.Option.{Option, none, some}
use native.Mathlib.Omega.{arith}
use livekit_psrpc.Prelude.Tests.{Comparable, ◌==◌, if◌then◌else◌}

module _ {ℓ κ} {K : Type ℓ} {V : Type κ} ⦃o : Comparable K⦄ where
  -- m[key] = v
  abbrev pub insert : K → V → List (K × V) → List (K × V)
  insert key v ((k, old) ∷ rest) =
      if k == key then (key, v) ∷ rest else (k, old) ∷ insert key v rest
  insert key v [] = (key, v) ∷ []

  abbrev pub lookup : K → List (K × V) → Option V
  lookup key ((k, v) ∷ rest) = if k == key then some v else lookup key rest
  lookup key [] = none

  -- delete(m, key)
  abbrev pub delete : K → List (K × V) → List (K × V)
  delete key ((k, v) ∷ rest) =
      let kept = delete key rest in if k == key then kept else (k, v) ∷ kept
  delete key [] = []

  pub lookup-delete :
      (m : List (K × V)) (key other : K)
      → lookup other (delete key m) ≡ (if key == other then none else lookup other m)
  lookup-delete ((k, v) ∷ rest) key other =
      ground (
        arith,
        lookup-delete rest key other,
        o.decides key other,
        o.decides k key,
        o.decides k other,
      )
  lookup-delete [] key other = ground arith

  pub lookup-insert :
      (m : List (K × V)) (key other : K) (v : V)
      → lookup other (insert key v m) ≡ (if key == other then some v else lookup other m)
  lookup-insert ((k, old) ∷ rest) key other v = ground (
    arith,
    lookup-insert rest key other v,
    o.decides key other,
    o.decides k key,
    o.decides k other,
  )
  lookup-insert [] key other v = refl

  pub lookup-insert_self : (k : K) (v : V) (m : List (K × V)) → lookup k (insert k v m) ≡ some v
  lookup-insert_self k v m = ground (arith, lookup-insert m k k v, o.decides k k)

  pub lookup-insert_ne :
      (k j : K) (v : V) (m : List (K × V)) → j ≢ k → lookup j (insert k v m) ≡ lookup j m
  lookup-insert_ne k j v m ne = ground (arith, lookup-insert m k j v, o.decides k j)

  pub lookup-delete_self : (k : K) (m : List (K × V)) → lookup k (delete k m) ≡ none
  lookup-delete_self k m = ground (arith, lookup-delete m k k, o.decides k k)

  pub lookup-delete_ne : (k j : K) (m : List (K × V)) → j ≢ k → lookup j (delete k m) ≡ lookup j m
  lookup-delete_ne k j m ne = ground (arith, lookup-delete m k j, o.decides k j)
