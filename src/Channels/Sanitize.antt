-- ===== src/Channels/Sanitize.antt =====
-- pkg/info/channels.go: sanitizing is injective, and its output is free of delimiters.
use mathlib.Core.Path.{ap₂}
use mathlib.Core.List.{append-nil, append_assoc, append_cancel_left}
use livekit_psrpc.Prelude.{
  ℕ, zero, suc, ◌+◌, ◌*◌, ◌/◌, ◌%◌, ◌^◌, ◌<◌, ◌≡◌, ◌≢◌, ◌⊎◌, inl, inr, refl, sym, ap, ◌∙◌, true, [],
  ◌∷◌, ◌++◌, arith, ltb, ltb→lt, ◌==◌, nat_equality, if◌then◌else◌, Bool-cases, length, Every,
  Every-append, Text, runes, every_below, every_below_sound,
}
use livekit_psrpc.Channels.Format.{
  is_channel_char, hex_digit, append_hex, append_rune, append_sanitized_channel_part,
}

-- The digits with no buffer.
hex : ℕ → ℕ → Text
unfolding hex_digit
hex zero r = []
hex (suc k) r = hex_digit (r / 2 ^ (4 * k) % 16) ∷ hex k r

append_hex_lem : (buf : Text) (k r : ℕ) → append_hex buf k r ≡ buf ++ hex k r
unfolding append_hex hex
append_hex_lem buf zero r = sym (append-nil buf)
append_hex_lem buf (suc k) r =
    append_hex_lem (buf ++ hex_digit (r / 2 ^ (4 * k) % 16) ∷ []) k r ∙ append_assoc buf _ _

pub sanitize_rune : ℕ → Text
unfolding is_channel_char hex
sanitize_rune r =
    if is_channel_char r
    then (r % 256) ∷ []
    else (if ltb r 0x10000 then b'u' ∷ b'+' ∷ hex 4 r else b'U' ∷ b'+' ∷ hex 8 r)

-- The whole output, with no buffer.
pub sanitize : Text → Text
sanitize [] = []
sanitize (r ∷ s) = sanitize_rune r ++ sanitize s

append_rune_lem : (buf : Text) (r : ℕ) → append_rune buf r ≡ buf ++ sanitize_rune r
unfolding append_rune sanitize_rune
append_rune_lem buf r = elim (Bool-cases (is_channel_char r)) [
  | inl plain ↦ rw plain
  | inr other ↦ rw other (elim (Bool-cases (ltb r 0x10000)) [
    | inl short ↦ rw short (append_hex_lem (buf ++ runes "u+") 4 r ∙ append_assoc buf _ _)
    | inr long ↦ rw long (append_hex_lem (buf ++ runes "U+") 8 r ∙ append_assoc buf _ _)
  ])
]

-- The loop over the buffer appends the sanitized text to it.
pub append_sanitized_lem : (buf s : Text) → append_sanitized_channel_part buf s ≡ buf ++ sanitize s
unfolding append_sanitized_channel_part sanitize
append_sanitized_lem buf [] = sym (append-nil buf)
append_sanitized_lem buf (r ∷ s) =
    append_sanitized_lem (append_rune buf r) s
    ∙ ap (λ b. b ++ sanitize s) (append_rune_lem buf r)
    ∙ append_assoc buf (sanitize_rune r) (sanitize s)

digit_value : ℕ → ℕ
digit_value d = if ltb d 10 then 48 + d else 87 + d

hex_digit_table : every_below 16 (λ d. hex_digit d == digit_value d) ≡ true
unfolding every_below hex_digit digit_value
hex_digit_table = refl

hex_digit_lem : (d : ℕ) → d < 16 → hex_digit d ≡ digit_value d
hex_digit_lem d h =
    (nat_equality.decides _ _).0
      (every_below_sound 16 (λ d. hex_digit d == digit_value d) d hex_digit_table h)

-- Two numbers with the same digit there agree on it.
hex_digit-injective : (c d : ℕ) → hex_digit (c % 16) ≡ hex_digit (d % 16) → c % 16 ≡ d % 16
unfolding digit_value
hex_digit-injective c d e =
    ground (arith, hex_digit_lem (c % 16) (omega arith), hex_digit_lem (d % 16) (omega arith))

-- The characters of a sanitized text: those of the table, and `+`.
abbrev pub IsChannelText : Text → Type 0
IsChannelText = Every (λ c. (is_channel_char c ≡ true) ⊎ (c ≡ b'+'))

hex_digit-is_channel_char : (c : ℕ) → is_channel_char (hex_digit (c % 16)) ≡ true
unfolding is_channel_char digit_value
hex_digit-is_channel_char c = ground (arith, hex_digit_lem (c % 16) (omega arith))

hex-IsChannelText : (k r : ℕ) → IsChannelText (hex k r)
unfolding hex
hex-IsChannelText zero r = tt
hex-IsChannelText (suc k) r =
    (inl (hex_digit-is_channel_char (r / 2 ^ (4 * k))), hex-IsChannelText k r)

channel_char-lt : (r : ℕ) → is_channel_char r ≡ true → r % 256 ≡ r
unfolding is_channel_char
channel_char-lt r h = ground arith

sanitize_rune-IsChannelText : (r : ℕ) → IsChannelText (sanitize_rune r)
unfolding sanitize_rune
sanitize_rune-IsChannelText r = elim (Bool-cases (is_channel_char r)) [
  | inl plain ↦ rw plain (inl (rw (channel_char-lt r plain) plain), tt)
  | inr other ↦ rw other (elim (Bool-cases (ltb r 0x10000)) [
    | inl short ↦ rw short (inl refl, (inr refl, hex-IsChannelText 4 r))
    | inr long ↦ rw long (inl refl, (inr refl, hex-IsChannelText 8 r))
  ])
]

pub sanitize-IsChannelText : (s : Text) → IsChannelText (sanitize s)
unfolding sanitize
sanitize-IsChannelText [] = tt
sanitize-IsChannelText (r ∷ s) =
    Every-append _ (sanitize_rune r) (sanitize s) (sanitize_rune-IsChannelText r)
      (sanitize-IsChannelText s)

-- What stands for one rune: itself, or four digits, or eight.
abbrev Shape : ℕ → Text → Type 0
Shape r out =
    ((is_channel_char r ≡ true) × (out ≡ r ∷ []))
    ⊎ ((r < 0x10000) × (out ≡ b'u' ∷ b'+' ∷ hex 4 r))
    ⊎ (out ≡ b'U' ∷ b'+' ∷ hex 8 r)

sanitize_rune-Shape : (r : ℕ) → Shape r (sanitize_rune r)
unfolding sanitize_rune
sanitize_rune-Shape r = elim (Bool-cases (is_channel_char r)) [
  | inl plain ↦ inl (plain, rw plain (ap (λ c. c ∷ []) (channel_char-lt r plain)))
  | inr other ↦ elim (Bool-cases (ltb r 0x10000)) [
    | inl short ↦ inr (inl (ltb→lt r _ short, rw (other, short)))
    | inr long ↦ inr (inr (rw (other, long)))
  ]
]

-- No output begins with `+`, so an escape is never confused with a plain `u` or `U`.
plus-not_first : (s t : Text) → sanitize s ≢ b'+' ∷ t
unfolding sanitize is_channel_char
plus-not_first [] t e = cc
plus-not_first (r ∷ s) t e = elim (sanitize_rune-Shape r) [
  | inl (plain, out) ↦ ground arith
  | inr (inl (_, out)) ↦ ground arith
  | inr (inr out) ↦ ground arith
]

abbrev SameDigits : ℕ → ℕ → ℕ → Type 0
SameDigits zero r q = Unit
SameDigits (suc k) r q = (r / 2 ^ (4 * k) % 16 ≡ q / 2 ^ (4 * k) % 16) × SameDigits k r q

hex-SameDigits : (k r q : ℕ) (s t : Text) → hex k r ++ s ≡ hex k q ++ t → SameDigits k r q × (s ≡ t)
unfolding hex
hex-SameDigits zero r q s t e = (tt, e)
hex-SameDigits (suc k) r q s t e =
    let (same, rest) = hex-SameDigits k r q s t (cc) in
    ((hex_digit-injective (r / 2 ^ (4 * k)) (q / 2 ^ (4 * k)) (cc), same), rest)

four_digits : (r q : ℕ) → r < 0x10000 → q < 0x10000 → SameDigits 4 r q → r ≡ q
four_digits r q hr hq h = omega arith

eight_digits : (r q : ℕ) → r < 2 ^ 32 → q < 2 ^ 32 → SameDigits 8 r q → r ≡ q
eight_digits r q hr hq h = omega arith

-- The first escape of the output, or its first plain character, tells the rune and the rest.
Shape-injective :
    (r q : ℕ) (a b s t : Text)
    → r < 2 ^ 32
    → q < 2 ^ 32
    → Shape r a
    → Shape q b
    → a ++ sanitize s ≡ b ++ sanitize t
    → (r ≡ q) × (sanitize s ≡ sanitize t)
Shape-injective r q a b s t hr hq (inl (_, x)) (inl (_, y)) e = (cc, cc)
Shape-injective r q a b s t hr hq (inl (_, x)) (inr (inl (_, y))) e = absurd (
    plus-not_first s (hex 4 q ++ sanitize t)
      (cc (ap (λ z. z ++ sanitize s) x, ap (λ z. z ++ sanitize t) y)))
Shape-injective r q a b s t hr hq (inl (_, x)) (inr (inr y)) e = absurd (
    plus-not_first s (hex 8 q ++ sanitize t)
      (cc (ap (λ z. z ++ sanitize s) x, ap (λ z. z ++ sanitize t) y)))
Shape-injective r q a b s t hr hq (inr (inl (_, x))) (inl (_, y)) e = absurd (
    plus-not_first t (hex 4 r ++ sanitize s)
      (cc (ap (λ z. z ++ sanitize s) x, ap (λ z. z ++ sanitize t) y)))
Shape-injective r q a b s t hr hq (inr (inr x)) (inl (_, y)) e = absurd (
    plus-not_first t (hex 8 r ++ sanitize s)
      (cc (ap (λ z. z ++ sanitize s) x, ap (λ z. z ++ sanitize t) y)))
Shape-injective r q a b s t hr hq (inr (inl (hr', x))) (inr (inl (hq', y))) e =
    let (same, rest) = hex-SameDigits 4 r q (sanitize s) (sanitize t) (cc) in
    (four_digits r q hr' hq' same, rest)
Shape-injective r q a b s t hr hq (inr (inr x)) (inr (inr y)) e =
    let (same, rest) = hex-SameDigits 8 r q (sanitize s) (sanitize t) (cc) in
    (eight_digits r q hr hq same, rest)
Shape-injective r q a b s t hr hq (inr (inl (_, x))) (inr (inr y)) e = ground arith
Shape-injective r q a b s t hr hq (inr (inr x)) (inr (inl (_, y))) e = ground arith

-- A text of runes: each is a value of Go's `rune` type that is not negative.
abbrev pub IsRunes : Text → Type 0
IsRunes = Every (λ r. r < 2 ^ 31)

pub sanitize-injective : (s t : Text) → IsRunes s → IsRunes t → sanitize s ≡ sanitize t → s ≡ t
unfolding sanitize
sanitize-injective [] [] hs ht e = refl
sanitize-injective [] (q ∷ t) hs ht e = elim (sanitize_rune-Shape q) [
  | inl (_, y) ↦ ground arith
  | inr (inl (_, y)) ↦ ground arith
  | inr (inr y) ↦ ground arith
]
sanitize-injective (r ∷ s) [] hs ht e = elim (sanitize_rune-Shape r) [
  | inl (_, y) ↦ ground arith
  | inr (inl (_, y)) ↦ ground arith
  | inr (inr y) ↦ ground arith
]
sanitize-injective (r ∷ s) (q ∷ t) hs ht e =
    let (head, rest) =
      Shape-injective r q (sanitize_rune r) (sanitize_rune q) s t (omega arith) (omega arith)
        (sanitize_rune-Shape r) (sanitize_rune-Shape q) e in
    ap₂ (λ (c : ℕ) (u : Text). c ∷ u) head (sanitize-injective s t hs.1 ht.1 rest)

-- A text that is not empty leaves a mark.
pub sanitize-ne-nil : (s : Text) → s ≢ [] → 0 < length (sanitize s)
unfolding sanitize
sanitize-ne-nil [] ne = absurd (ne refl)
sanitize-ne-nil (r ∷ s) ne = elim (sanitize_rune-Shape r) [
  | inl (_, y) ↦ rw y (omega arith)
  | inr (inl (_, y)) ↦ rw y (omega arith)
  | inr (inr y) ↦ rw y (omega arith)
]

-- Sanitizing loses nothing, whatever stands in the buffer: two texts of runes that are written alike
-- are the same text.
pub append_sanitized-injective :
    (s t buf : Text)
    → IsRunes s
    → IsRunes t
    → append_sanitized_channel_part buf s ≡ append_sanitized_channel_part buf t
    → s ≡ t
append_sanitized-injective s t buf hs ht e = sanitize-injective s t hs ht (
    append_cancel_left buf (sanitize s) (sanitize t)
      (sym (append_sanitized_lem buf s) ∙ e ∙ append_sanitized_lem buf t))
