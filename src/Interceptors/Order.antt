-- ===== src/Interceptors/Order.antt =====
-- internal/interceptors/interceptor.go: in which order interceptors are called.
use livekit_psrpc.Prelude.{
  ℕ, zero, suc, ◌+◌, ◌<◌, ◌≡◌, refl, sym, ap, ◌∙◌, List, [], ◌∷◌, ◌++◌, some, length, get_elem?,
  nat_equality, arith,
}
use livekit_psrpc.Interceptors.Chain.{chain_down, chain_client}

-- The first interceptor outermost, around the others.
abbrev pub nested : {I H : Type 0} → List (I → H → H) → I → H → H
nested [] info handler = handler
nested (f ∷ fs) info handler = f info (nested fs info handler)

pub get_elem?-length :
    {A : Type 0} (xs ys : List A) (a : A) → get_elem? (xs ++ a ∷ ys) (length xs) ≡ some a
get_elem?-length [] ys a = refl
get_elem?-length (x ∷ xs) ys a = get_elem?-length xs ys a

nested-append :
    {I H : Type 0} (fs gs : List (I → H → H)) (info : I) (handler : H)
    → nested (fs ++ gs) info handler ≡ nested fs info (nested gs info handler)
nested-append [] gs info handler = refl
nested-append (f ∷ fs) gs info handler = ap (f info) (nested-append fs gs info handler)

abbrev front : {A : Type 0} → ℕ → List A → List A
front zero xs = []
front (suc i) [] = []
front (suc i) (x ∷ xs) = x ∷ front i xs

front-suc :
    {A : Type 0} (i : ℕ) (xs : List A) (a : A)
    → get_elem? xs i ≡ some a
    → front (suc i) xs ≡ front i xs ++ a ∷ []
front-suc i [] a h = absurd cc
front-suc zero (x ∷ xs) a h = cc
front-suc (suc i) (x ∷ xs) a h = ap (λ ys. x ∷ ys) (front-suc i xs a h)

front-length : {A : Type 0} (xs : List A) → front (length xs) xs ≡ xs
front-length [] = refl
front-length (x ∷ xs) = ap (λ ys. x ∷ ys) (front-length xs)

get_elem?-below :
    {A : Type 0} (xs : List A) (i : ℕ) → i < length xs → (a : A) × (get_elem? xs i ≡ some a)
get_elem?-below [] i h = absurd (omega arith)
get_elem?-below (x ∷ xs) zero h = (x, refl)
get_elem?-below (x ∷ xs) (suc i) h = get_elem?-below xs i (omega arith)

chain_down-front :
    {I H : Type 0} (i : ℕ) (fs : List (I → H → H)) (info : I) (handler : H)
    → i < length fs + 1
    → chain_down i fs info handler ≡ nested (front i fs) info handler
unfolding chain_down
chain_down-front zero fs info handler h = refl
chain_down-front (suc i) fs info handler h =
    let (f, e) = get_elem?-below fs i (omega arith) in
    rw (e, chain_down)
      (chain_down-front i fs info (f info handler) (omega arith)
        ∙ sym (nested-append (front i fs) (f ∷ []) info handler)
        ∙ ap (λ gs. nested gs info handler) (sym (front-suc i fs f e)))

-- The chain of client interceptors is the first of them around the second, and so on down to the
-- handler.
pub chain_client_lem :
    {I H : Type 0} (fs : List (I → H → H)) (info : I) (handler : H)
    → chain_client fs info handler ≡ nested fs info handler
unfolding chain_client
chain_client_lem fs info handler =
    chain_down-front (length fs) fs info handler (omega arith)
    ∙ ap (λ gs. nested gs info handler) (front-length fs)
