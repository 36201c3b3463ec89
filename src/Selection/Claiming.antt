-- ===== src/Selection/Claiming.antt =====
-- pkg/server/rpc.go: `claimRequest`, and which of several servers handles a request. The affinity
-- function, the publication and the `select` that waits for the answer are given by what they answer.
use livekit_psrpc.Prelude.{
  ◌≡◌, inl, inr, refl, sym, ap, ◌∙◌, String, Bool, not, ◌&&◌, arith, Option-cases, true, false,
  List, [], ◌∷◌, ◌++◌, Option, none, some, if◌then◌else◌, Bool-cases, Every, ◌==◌, string_equality,
  insert, delete, lookup, lookup-delete, lookup-insert, Result, ok, err,
}
use livekit_psrpc.Selection.Affinity.{Float32, gt}

pub record ClaimRequest : Type 0 where
  pub request_id : String
  pub server_id : String
  pub affinity : Float32

-- A call of `claimRequest`: what it publishes, the claim channels while it waits and behind it, and
-- what it returns.
pub record ClaimRun (E C : Type 0) : Type 0 where
  pub published : Option ClaimRequest
  pub waiting : List (String × C)
  pub claims : List (String × C)
  pub result : Result E Bool

-- 1 as a float32.
abbrev pub one : Float32
one = 1065353216

abbrev pub claim_affinity : Option Float32 → Float32
claim_affinity none = one
claim_affinity (some a) = a

abbrev pub is_refused : Option Float32 → Bool
is_refused none = false
is_refused (some a) = gt 0 a

abbrev pub on_answer : {E : Type 0} → String → Option String → Result E Bool
on_answer server_id none = ok false
on_answer server_id (some chosen) = if chosen == server_id then ok true else ok false

abbrev pub is_none : {A : Type 0} → Option A → Bool
is_none none = true
is_none (some a) = false

abbrev pub is_answered : String → Option String → Bool
is_answered server_id none = false
is_answered server_id (some chosen) = chosen == server_id

-- Whether the server goes on to its handler, as `handleRequest` asks.
abbrev pub goes_on : {E : Type 0} → Result E Bool → Bool
goes_on (ok b) = b
goes_on (err e) = false

goes_on-on_answer :
    (E : Type 0) (server_id : String) (answer : Option String)
    → goes_on {E = E} (on_answer server_id answer) ≡ is_answered server_id answer
goes_on-on_answer E server_id none = refl
goes_on-on_answer E server_id (some chosen) = elim (Bool-cases (chosen == server_id)) [
  | inl h ↦ rw h refl
  | inr h ↦ rw h refl
]

pub delete-insert :
    {C : Type 0} (key : String) (v : C) (m : List (String × C))
    → lookup key m ≡ none
    → (other : String) → lookup other (delete key (insert key v m)) ≡ lookup other m
delete-insert key v m fresh other = elim (Bool-cases (key == other)) [
  | inl h ↦
      lookup-delete (insert key v m) key other
      ∙ rw h (sym fresh ∙ ap (λ k. lookup k m) ((string_equality.decides _ _).0 h))
  | inr h ↦
      lookup-delete (insert key v m) key other ∙ rw h (lookup-insert m key other v ∙ rw h refl)
]

module _ {E C : Type 0} where
  -- The answer is the server of the claim response, `none` after the timeout.
  unfoldable pub claim_request :
      String
      → String
      → Option Float32
      → C
      → Option E
      → Option String
      → List (String × C)
      → ClaimRun E C
  claim_request server_id request_id affinity chan failed answer claims =
      let waiting = insert request_id chan claims in
      if is_refused affinity
      then record { published = none; waiting = claims; claims = claims; result = ok false }
      else record {
        published = some (record {
          request_id = request_id;
          server_id = server_id;
          affinity = claim_affinity affinity;
        });
        waiting = waiting;
        claims = delete request_id waiting;
        result = elim failed [ some e ↦ err e | none ↦ on_answer server_id answer ];
      }

  -- A call for a request that no other call waits for leaves the claim channels as they were, whether
  -- the affinity function refused, the publication failed, an answer came or the time was over.
  pub claim_request-claims :
      (server_id request_id : String) (affinity : Option Float32) (chan : C) (failed : Option E)
      (answer : Option String) (claims : List (String × C))
      → lookup request_id claims ≡ none
      → (other : String)
      → lookup other (claim_request server_id request_id affinity chan failed answer claims).claims
        ≡ lookup other claims
  unfolding claim_request
  claim_request-claims server_id request_id affinity chan failed answer claims fresh other =
      elim (Bool-cases (is_refused affinity)) [
        | inl h ↦ rw h refl
        | inr h ↦ rw h (delete-insert request_id chan claims fresh other)
      ]

claim_request-goes_on :
    {E C : Type 0} (server_id request_id : String) (affinity : Option Float32) (chan : C)
    (failed : Option E) (answer : Option String) (claims : List (String × C))
    → goes_on (claim_request server_id request_id affinity chan failed answer claims).result
      ≡ (not (is_refused affinity) && is_none failed && is_answered server_id answer)
unfolding claim_request
claim_request-goes_on server_id request_id affinity chan failed answer claims =
    elim (Bool-cases (is_refused affinity)) [
      | inl h ↦ rw h refl
      | inr h ↦ rw h (elim (Option-cases failed) [
        | inr (e, f) ↦ rw f refl
        | inl f ↦ rw f (goes_on-on_answer _ server_id answer)
      ])
    ]

-- A server that got the request: its name, what its affinity function answers, the error of the
-- publication of its claim, and whether the client's answer comes before its timeout.
pub record Claimant (E : Type 0) : Type 0 where
  pub server_id : String
  pub affinity : Option Float32
  pub failed : Option E
  pub in_time : Bool

-- What its `select` takes, when the client answers with `chosen`: the answer, or the timeout.
abbrev pub answer_to : {E : Type 0} → String → Claimant E → Option String
answer_to chosen s = if s.in_time then some chosen else none

-- The servers that go on to their handler.
abbrev pub handling : {E C : Type 0} → String → C → String → List (Claimant E) → List (Claimant E)
handling request_id chan chosen [] = []
handling {E} {C} request_id chan chosen (s ∷ servers) =
    if goes_on
      (claim_request {E = E} {C = C} s.server_id request_id s.affinity chan s.failed
        (answer_to chosen s) []).result
    then s ∷ handling request_id chan chosen servers
    else handling request_id chan chosen servers

abbrev pub NoneNamed : {E : Type 0} → String → List (Claimant E) → Type 0
NoneNamed {E} chosen servers = Every (λ (s : Claimant E). (chosen == s.server_id) ≡ false) servers

-- The server did not refuse, its claim was published, and the answer came in time.
abbrev pub takes_part : {E : Type 0} → Claimant E → Bool
takes_part s = not (is_refused s.affinity) && is_none s.failed && s.in_time

module _ {E C : Type 0} (request_id : String) (chan : C) (chosen : String) where
  goes_on-claimant :
      (s : Claimant E)
      → goes_on
          (claim_request {E = E} {C = C} s.server_id request_id s.affinity chan s.failed
            (answer_to chosen s)
            []).result
        ≡ (takes_part s && chosen == s.server_id)
  goes_on-claimant s =
      claim_request-goes_on s.server_id request_id s.affinity chan s.failed (answer_to chosen s) []
      ∙ (elim (Bool-cases s.in_time) [ inl t ↦ rw t (ground arith) | inr t ↦ rw t (ground arith) ])

  handling-step :
      (s : Claimant E) (servers : List (Claimant E))
      → handling request_id chan chosen (s ∷ servers) ≡ (
          if takes_part s && chosen == s.server_id
          then s ∷ handling request_id chan chosen servers
          else handling request_id chan chosen servers)
  handling-step s servers = rw (goes_on-claimant s) refl

  handling-NoneNamed :
      (servers rest : List (Claimant E))
      → NoneNamed chosen servers
      → handling request_id chan chosen (servers ++ rest) ≡ handling request_id chan chosen rest
  handling-NoneNamed [] rest h = refl
  handling-NoneNamed (s ∷ servers) rest (h, hs) =
      let off : (takes_part s && chosen == s.server_id) ≡ false = ground arith in
      handling-step s (servers ++ rest) ∙ rw off (handling-NoneNamed servers rest hs)

  only :
      (servers : List (Claimant E))
      → NoneNamed chosen servers
      → handling request_id chan chosen servers ≡ []
  only [] h = refl
  only (s ∷ servers) (h, hs) =
      let off : (takes_part s && chosen == s.server_id) ≡ false = ground arith in
      handling-step s servers ∙ rw off (only servers hs)

  -- When one of the servers that got a request has the chosen name and no other one has it, no other
  -- server goes on to its handler; and the one that has it does just if it did not refuse by a negative
  -- affinity, its claim was published, and the client's answer came before its timeout.
  pub handling_one :
      (s : Claimant E) (before behind : List (Claimant E))
      → NoneNamed chosen before
      → NoneNamed chosen behind
      → s.server_id ≡ chosen
      → handling request_id chan chosen (before ++ s ∷ behind)
        ≡ (if takes_part s then s ∷ [] else [])
  handling_one s before behind hb hr e =
      let named : (chosen == s.server_id) ≡ true = (string_equality.decides _ _).1 (sym e) in
      let on : (takes_part s && chosen == s.server_id) ≡ takes_part s = ground arith in
      handling-NoneNamed before (s ∷ behind) hb
      ∙ handling-step s behind
      ∙ rw on rw (only behind hr) refl
