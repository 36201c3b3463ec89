-- ===== src/Redis/Sets.antt =====
-- internal/bus/bus_redis.go: the sets of channels as lists.
use livekit_psrpc.Prelude.{
  ◌≡◌, refl, ap, inl, inr, Bool-cases, String, Bool, ◌&&◌, ◌||◌, List, [], ◌∷◌, ◌++◌, ◌==◌,
  string_equality, elem, arith,
}
use livekit_psrpc.Redis.Steps.{keep}

pub elem-append : (c : String) (xs ys : List String) → elem c (xs ++ ys) ≡ (elem c xs || elem c ys)
elem-append c [] ys = refl
elem-append c (x ∷ xs) ys = ground (arith, elem-append c xs ys)

pub elem-keep :
    (test : String → Bool) (c : String) (xs : List String)
    → elem c (keep test xs) ≡ (test c && elem c xs)
elem-keep test c [] = ground arith
elem-keep test c (x ∷ xs) = elim (Bool-cases (x == c)) [
  | inl same ↦
      let e : test x ≡ test c = ap test ((string_equality.decides x c).0 same) in
      ground (arith, elem-keep test c xs)
  | inr other ↦ ground (arith, elem-keep test c xs)
]
