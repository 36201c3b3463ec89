-- ===== src/Channels/Join.antt =====
-- pkg/info/channels.go: the parts of a name, joined by a delimiter, and what can be read back from it.
use mathlib.Core.List.{append-nil, append_assoc, map-append}
use mathlib.Core.Path.{ap₂}
use livekit_psrpc.Prelude.{
  ℕ, ◌<◌, ◌≡◌, ◌≢◌, inl, inr, refl, sym, ap, ◌∙◌, Bool, true, false, List, [], ◌∷◌, ◌++◌, map,
  arith, ltb, lt→ltb, le→not-ltb, Every, length, length-append, Text,
}
use livekit_psrpc.Channels.Format.{
  Part, text, texts, delimit, is_channel_char, append_texts, append_part, append_channel_parts,
}
use livekit_psrpc.Channels.Sanitize.{
  sanitize, append_sanitized_lem, IsChannelText, sanitize-IsChannelText, IsRunes,
  sanitize-injective, sanitize-ne-nil,
}

-- The texts, each behind a delimiter but the first if the flag is off.
unfoldable pub joined : Bool → ℕ → List Text → Text
joined prefix d [] = []
joined prefix d (t ∷ ts) = delimit prefix [] d ++ (t ++ joined true d ts)

abbrev pub IsPresent : Text → Type 0
IsPresent t = t ≢ []

grows : (buf s : Text) → IsPresent s → ltb (length buf) (length (buf ++ sanitize s)) ≡ true
grows buf s h = lt→ltb _ _ (omega (arith, length-append buf (sanitize s), sanitize-ne-nil s h))

delimit-append :
    (prefix : Bool) (buf : Text) (d : ℕ) → delimit prefix buf d ≡ buf ++ delimit prefix [] d
delimit-append true buf d = refl
delimit-append false buf d = sym (append-nil buf)

pub append_texts_lem :
    (prefix : Bool) (buf : Text) (d : ℕ) (ts : List Text)
    → Every IsPresent ts
    → append_texts prefix buf d ts ≡ buf ++ joined prefix d (map sanitize ts)
unfolding append_texts joined
append_texts_lem prefix buf d [] h = sym (append-nil buf)
append_texts_lem prefix buf d (t ∷ ts) h =
    rw (append_sanitized_lem (delimit prefix buf d) t, grows (delimit prefix buf d) t h.0)
      (append_texts_lem true (delimit prefix buf d ++ sanitize t) d ts h.1
        ∙ append_assoc (delimit prefix buf d) (sanitize t) _
        ∙ ap (λ b. b ++ (sanitize t ++ joined true d (map sanitize ts)))
            (delimit-append prefix buf d)
        ∙ append_assoc buf (delimit prefix [] d) _)

joined-append :
    (prefix : Bool) (d : ℕ) (t : Text) (ts us : List Text)
    → joined prefix d ((t ∷ ts) ++ us) ≡ joined prefix d (t ∷ ts) ++ joined true d us
unfolding joined
joined-append prefix d t [] us = simp (append_assoc, append-nil)
joined-append prefix d t (u ∷ ts) us = simp (joined-append true d u ts us, append_assoc)

-- The texts of the parts, one after another.
abbrev pub flat : List Part → List Text
flat [] = []
flat (text v ∷ ps) = v ∷ flat ps
flat (texts vs ∷ ps) = vs ++ flat ps

abbrev pub ArePresent : List Part → Type 0
ArePresent [] = Unit
ArePresent (text v ∷ ps) = IsPresent v × ArePresent ps
ArePresent (texts vs ∷ ps) = Every IsPresent vs × ArePresent ps

pub joined-grows :
    (d : ℕ) (t : Text) (ts : List Text)
    → IsPresent t
    → 0 < length (joined false d (map sanitize (t ∷ ts)))
unfolding joined
joined-grows d t ts h =
    omega (arith, length-append (sanitize t) (joined true d (map sanitize ts)), sanitize-ne-nil t h)

flat-append : (ps : List Part) (v : Text) → flat (ps ++ text v ∷ []) ≡ flat ps ++ v ∷ []
flat-append [] v = refl
flat-append (text t ∷ ps) v = ap (λ ts. t ∷ ts) (flat-append ps v)
flat-append (texts vs ∷ ps) v = rw (flat-append ps v) (sym (append_assoc vs (flat ps) _))

delimit-joined :
    (prefix : Bool) (d : ℕ) (ts : List Text) (v : Text)
    → joined prefix d (map sanitize (ts ++ v ∷ []))
      ≡ delimit prefix [] d ++ joined false d (map sanitize (ts ++ v ∷ []))
unfolding joined
delimit-joined prefix d [] v = refl
delimit-joined prefix d (t ∷ ts) v = refl

-- A part that leaves something sets the flag for the next one.
part_step :
    (p : Part) (ps : List Part) (w : Text) (prefix : Bool) (buf : Text) (d : ℕ)
    → append_part (delimit prefix buf d) d p ≡ delimit prefix buf d ++ w
    → 0 < length w
    → append_channel_parts prefix buf d (p ∷ ps)
      ≡ append_channel_parts true (delimit prefix buf d ++ w) d ps
unfolding append_channel_parts
part_step p ps w prefix buf d e h = rw (
  e,
  lt→ltb (length (delimit prefix buf d)) (length (delimit prefix buf d ++ w))
      (omega (arith, length-append (delimit prefix buf d) w)),
)

empty_step :
    (ps : List Part) (prefix : Bool) (buf : Text) (d : ℕ)
    → append_channel_parts prefix buf d (texts [] ∷ ps)
      ≡ append_channel_parts false (delimit prefix buf d) d ps
unfolding append_channel_parts append_part append_texts
empty_step ps prefix buf d =
    rw (le→not-ltb (length (delimit prefix buf d)) (length (delimit prefix buf d)) (omega arith))

-- Brings the delimiter of the first part to the front of what is joined.
regroup :
    (prefix : Bool) (buf w rest : Text) (d : ℕ)
    → (delimit prefix buf d ++ w) ++ rest ≡ buf ++ (delimit prefix [] d ++ (w ++ rest))
regroup prefix buf w rest d =
    append_assoc (delimit prefix buf d) w rest
    ∙ ap (λ b. b ++ (w ++ rest)) (delimit-append prefix buf d)
    ∙ append_assoc buf (delimit prefix [] d) (w ++ rest)

-- A name that ends in a text, as the names of the channels do: a list of strings in it may be empty,
-- and leaves no delimiter then.
pub append_channel_parts_lem :
    (ps : List Part) (v : Text) (prefix : Bool) (buf : Text) (d : ℕ)
    → ArePresent ps
    → IsPresent v
    → append_channel_parts prefix buf d (ps ++ text v ∷ [])
      ≡ buf ++ joined prefix d (map sanitize (flat (ps ++ text v ∷ [])))
unfolding append_channel_parts append_part joined
append_channel_parts_lem [] v prefix buf d hs hv =
    append_sanitized_lem (delimit prefix buf d) v
    ∙ ap (λ b. b ++ sanitize v) (delimit-append prefix buf d)
    ∙ append_assoc buf (delimit prefix [] d) (sanitize v)
    ∙ ap (λ s. buf ++ (delimit prefix [] d ++ s)) (sym (append-nil (sanitize v)))
append_channel_parts_lem (text t ∷ ps) v prefix buf d hs hv =
    part_step (text t) (ps ++ text v ∷ []) (sanitize t) prefix buf d
      (append_sanitized_lem (delimit prefix buf d) t) (sanitize-ne-nil t hs.0)
    ∙ append_channel_parts_lem ps v true (delimit prefix buf d ++ sanitize t) d hs.1 hv
    ∙ regroup prefix buf (sanitize t) _ d
append_channel_parts_lem (texts [] ∷ ps) v prefix buf d hs hv =
    empty_step (ps ++ text v ∷ []) prefix buf d
    ∙ append_channel_parts_lem ps v false (delimit prefix buf d) d hs.1 hv
    ∙ rw (flat-append ps v, delimit-joined prefix d (flat ps) v)
        (ap (λ b. b ++ joined false d (map sanitize (flat ps ++ v ∷ [])))
            (delimit-append prefix buf d)
          ∙ append_assoc buf (delimit prefix [] d) _)
append_channel_parts_lem (texts (t ∷ ts) ∷ ps) v prefix buf d hs hv =
    part_step (texts (t ∷ ts)) (ps ++ text v ∷ []) (joined false d (map sanitize (t ∷ ts))) prefix
      buf d (append_texts_lem false (delimit prefix buf d) d (t ∷ ts) hs.0)
      (joined-grows d t ts hs.0.0)
    ∙ append_channel_parts_lem ps v true _ d hs.1 hv
    ∙ regroup prefix buf (joined false d (map sanitize (t ∷ ts))) _ d
    ∙ ap (λ b. buf ++ (delimit prefix [] d ++ b))
        (rw (map-append sanitize ts (flat (ps ++ text v ∷ [])))
          (sym (joined-append false d (sanitize t) (map sanitize ts) _)))

-- Texts without the delimiter are told apart by what joins them.
abbrev pub IsFree : ℕ → Text → Type 0
IsFree d = Every (λ c. c ≢ d)

pub joined_split :
    (d : ℕ) (s t : Text) (xs ys : List Text)
    → IsFree d s
    → IsFree d t
    → s ++ joined true d xs ≡ t ++ joined true d ys
    → (s ≡ t) × (joined true d xs ≡ joined true d ys)
unfolding joined
joined_split d [] [] xs ys hs ht e = (refl, e)
joined_split d [] (b ∷ t) [] ys hs ht e = cc
joined_split d [] (b ∷ t) (x ∷ xs) ys hs ht e = absurd (ht.0 (cc))
joined_split d (a ∷ s) [] xs [] hs ht e = cc
joined_split d (a ∷ s) [] xs (y ∷ ys) hs ht e = absurd (hs.0 (cc))
joined_split d (a ∷ s) (b ∷ t) xs ys hs ht e =
    let (same, rest) = joined_split d s t xs ys hs.1 ht.1 (cc) in
    (ap₂ (λ (c : ℕ) (u : Text). c ∷ u) (cc) same, rest)

joined-true-injective :
    (d : ℕ) (xs ys : List Text)
    → Every (IsFree d) xs
    → Every (IsFree d) ys
    → joined true d xs ≡ joined true d ys
    → xs ≡ ys
unfolding joined
joined-true-injective d [] [] hx hy e = refl
joined-true-injective d [] (y ∷ ys) hx hy e = cc
joined-true-injective d (x ∷ xs) [] hx hy e = cc
joined-true-injective d (x ∷ xs) (y ∷ ys) hx hy e =
    let (head, rest) = joined_split d x y xs ys hx.0 hy.0 (cc) in
    ap₂ (λ (t : Text) (ts : List Text). t ∷ ts) head (joined-true-injective d xs ys hx.1 hy.1 rest)

-- The same of lists with a first element, which has no delimiter before it.
joined-injective :
    (d : ℕ) (x y : Text) (xs ys : List Text)
    → Every (IsFree d) (x ∷ xs)
    → Every (IsFree d) (y ∷ ys)
    → joined false d (x ∷ xs) ≡ joined false d (y ∷ ys)
    → x ∷ xs ≡ y ∷ ys
unfolding joined
joined-injective d x y xs ys hx hy e =
    let (head, rest) = joined_split d x y xs ys hx.0 hy.0 e in
    ap₂ (λ (t : Text) (ts : List Text). t ∷ ts) head (joined-true-injective d xs ys hx.1 hy.1 rest)

-- A delimiter of the package: not a character of a sanitized text.
abbrev pub IsDelimiter : ℕ → Type 0
IsDelimiter d = (is_channel_char d ≡ false) × (d ≢ b'+')

IsChannelText-IsFree : (d : ℕ) → IsDelimiter d → (s : Text) → IsChannelText s → IsFree d s
IsChannelText-IsFree d hd [] h = tt
IsChannelText-IsFree d hd (c ∷ s) (inl plain, h) =
    ((λ e. cc (ap is_channel_char e)), IsChannelText-IsFree d hd s h)
IsChannelText-IsFree d hd (c ∷ s) (inr plus, h) =
    ((λ e. hd.1 (sym e ∙ plus)), IsChannelText-IsFree d hd s h)

pub sanitized-IsFree :
    (d : ℕ) → IsDelimiter d → (ts : List Text) → Every (IsFree d) (map sanitize ts)
sanitized-IsFree d hd [] = tt
sanitized-IsFree d hd (t ∷ ts) =
    (IsChannelText-IsFree d hd (sanitize t) (sanitize-IsChannelText t), sanitized-IsFree d hd ts)

map-sanitize-injective :
    (ts us : List Text)
    → Every IsRunes ts
    → Every IsRunes us
    → map sanitize ts ≡ map sanitize us
    → ts ≡ us
map-sanitize-injective [] [] ht hu e = refl
map-sanitize-injective [] (u ∷ us) ht hu e = cc
map-sanitize-injective (t ∷ ts) [] ht hu e = cc
map-sanitize-injective (t ∷ ts) (u ∷ us) ht hu e =
    ap₂ (λ (s : Text) (ss : List Text). s ∷ ss) (sanitize-injective t u ht.0 hu.0 (cc))
      (map-sanitize-injective ts us ht.1 hu.1 (cc))

-- What is joined from sanitized texts tells the texts.
pub sanitized-injective :
    (d : ℕ) (t u : Text) (ts us : List Text)
    → IsDelimiter d
    → Every IsRunes (t ∷ ts)
    → Every IsRunes (u ∷ us)
    → joined false d (map sanitize (t ∷ ts)) ≡ joined false d (map sanitize (u ∷ us))
    → t ∷ ts ≡ u ∷ us
sanitized-injective d t u ts us hd ht hu e = map-sanitize-injective (t ∷ ts) (u ∷ us) ht hu (
    joined-injective d (sanitize t) (sanitize u) (map sanitize ts) (map sanitize us)
      (sanitized-IsFree d hd (t ∷ ts)) (sanitized-IsFree d hd (u ∷ us)) e)
