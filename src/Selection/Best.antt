-- ===== src/Selection/Best.antt =====
-- pkg/client/rpc.go: the best of a list of claims, and the search for it in `selectServer`.
use livekit_psrpc.Prelude.{
  ◌≡◌, ◌⊎◌, inl, inr, refl, ap, String, true, false, List, [], ◌∷◌, ◌++◌, if◌then◌else◌, Every,
  Bool-cases,
}
use livekit_psrpc.Selection.Affinity.{Float32, gt, ge, gt_trans, gt→not-ge, not-gt→not-ge}
use livekit_psrpc.Selection.Loop.{Claim}

-- c exceeds a; no claim before it reaches it, and none behind it exceeds it.
abbrev pub IsBest : Float32 → Claim → List Claim → Type 0
IsBest a c cs =
    (gt c.affinity a ≡ true)
    × (before : List Claim) × (behind : List Claim) × (cs ≡ before ++ c ∷ behind)
    × Every (λ (p : Claim). ge p.affinity c.affinity ≡ false) before
    × Every (λ (p : Claim). gt p.affinity c.affinity ≡ false) behind

-- No claim exceeds a.
abbrev pub NoneAbove : Float32 → List Claim → Type 0
NoneAbove a cs = Every (λ (p : Claim). gt p.affinity a ≡ false) cs

-- The server and the affinity that the loop keeps, claim by claim.
abbrev pub lead : String → Float32 → List Claim → String × Float32
lead id a [] = (id, a)
lead id a (p ∷ ps) = if gt p.affinity a then lead p.server_id p.affinity ps else lead id a ps

abbrev pub Leads : String → Float32 → List Claim → Type 0
Leads id a cs =
    ((c : Claim) × IsBest a c cs × (lead id a cs ≡ (c.server_id, c.affinity)))
    ⊎ (NoneAbove a cs × (lead id a cs ≡ (id, a)))

overtaken :
    (p : Claim) (ps : List Claim) (id : String) (a : Float32)
    → gt p.affinity a ≡ true
    → Leads p.server_id p.affinity ps
    → Leads id a (p ∷ ps)
overtaken p ps id a h (inl (c, (above, before, behind, e, low, rest), run)) = inl (
  c,
  (
    gt_trans c.affinity p.affinity a above h,
    p ∷ before,
    behind,
    ap (λ cs. p ∷ cs) e,
    (gt→not-ge c.affinity p.affinity above, low),
    rest,
  ),
  rw h run,
)
overtaken p ps id a h (inr (low, run)) = inl (p, (h, [], ps, refl, tt, low), rw h run)

passed :
    (p : Claim) (ps : List Claim) (id : String) (a : Float32)
    → gt p.affinity a ≡ false
    → Leads id a ps
    → Leads id a (p ∷ ps)
passed p ps id a h (inl (c, (above, before, behind, e, low, rest), run)) = inl (
  c,
  (
    above,
    p ∷ before,
    behind,
    ap (λ cs. p ∷ cs) e,
    (not-gt→not-ge c.affinity p.affinity a above h, low),
    rest,
  ),
  rw h run,
)
passed p ps id a h (inr (low, run)) = inr ((h, low), rw h run)

pub lead_lem : (cs : List Claim) (id : String) (a : Float32) → Leads id a cs
lead_lem [] id a = inr (tt, refl)
lead_lem (p ∷ ps) id a = elim (Bool-cases (gt p.affinity a)) [
  | inl h ↦ overtaken p ps id a h (lead_lem ps p.server_id p.affinity)
  | inr h ↦ passed p ps id a h (lead_lem ps id a)
]
