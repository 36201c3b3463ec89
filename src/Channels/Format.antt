-- ===== src/Channels/Format.antt =====
-- pkg/info/channels.go: the formatting of channel names. A text is the list of its runes, and what
-- the code appends as raw bytes is appended rune by rune.
use livekit_psrpc.Prelude.{
  ℕ, zero, suc, ◌*◌, ◌/◌, ◌%◌, ◌^◌, Bool, false, ◌||◌, ◌&&◌, List, [], ◌∷◌, ◌++◌, ltb, leb, ◌==◌,
  nat_equality, if◌then◌else◌, length, get_or, Text, runes,
}

abbrev pub lower_hex : Text
lower_hex = runes "0123456789abcdef"

-- `unicode.Is(channelChar, r)`: the four ranges of the table.
unfoldable pub is_channel_char : ℕ → Bool
is_channel_char r =
    (leb 0x30 r && leb r 0x39)
    || (leb 0x41 r && leb r 0x5a)
    || (leb 0x5f r && leb r 0x5f)
    || (leb 0x61 r && leb r 0x7a)

unfoldable pub hex_digit : ℕ → ℕ
hex_digit d = get_or lower_hex d 0

-- `for s := 4 * (n - 1); s >= 0; s -= 4`: the n lowest hexadecimal digits, the highest first.
unfoldable pub append_hex : Text → ℕ → ℕ → Text
unfolding hex_digit
append_hex buf zero r = buf
append_hex buf (suc k) r = append_hex (buf ++ hex_digit (r / 2 ^ (4 * k) % 16) ∷ []) k r

unfoldable pub append_rune : Text → ℕ → Text
unfolding is_channel_char append_hex
append_rune buf r =
    if is_channel_char r
    then buf ++ (r % 256) ∷ []
    else (if ltb r 0x10000
        then append_hex (buf ++ runes "u+") 4 r
        else append_hex (buf ++ runes "U+") 8 r)

unfoldable pub append_sanitized_channel_part : Text → Text → Text
unfolding append_rune
append_sanitized_channel_part buf [] = buf
append_sanitized_channel_part buf (r ∷ s) = append_sanitized_channel_part (append_rune buf r) s

-- A part is a string or a list of strings. The function is generic in the type of its parts, and
-- calls itself at the type of strings: these are the two instances.
pub data Part : Type 0 where
  text : Text → Part
  texts : List Text → Part

abbrev pub delimit : Bool → Text → ℕ → Text
delimit prefix buf delim = if prefix then buf ++ delim ∷ [] else buf

unfoldable pub append_texts : Bool → Text → ℕ → List Text → Text
append_texts prefix buf delim [] = buf
append_texts prefix buf delim (t ∷ ts) =
    let start = delimit prefix buf delim in
    let next = append_sanitized_channel_part start t in
    append_texts (ltb (length start) (length next)) next delim ts

unfoldable pub append_part : Text → ℕ → Part → Text
append_part buf delim (text v) = append_sanitized_channel_part buf v
append_part buf delim (texts vs) = append_texts false buf delim vs

unfoldable pub append_channel_parts : Bool → Text → ℕ → List Part → Text
append_channel_parts prefix buf delim [] = buf
append_channel_parts prefix buf delim (p ∷ ps) =
    let start = delimit prefix buf delim in
    let next = append_part start delim p in
    append_channel_parts (ltb (length start) (length next)) next delim ps

unfoldable pub format_channel : ℕ → List Part → Text
format_channel delim parts = append_channel_parts false [] delim parts

unfoldable pub format_client_channel : Text → Text → Text → Text
format_client_channel service client_id channel =
    runes "CLI." ++ (service ++ (b'.' ∷ (client_id ++ (b'.' ∷ channel))))

unfoldable pub format_local_channel : Text → Text → Text
format_local_channel method channel = method ++ (b'.' ∷ channel)

unfoldable pub append_topic : Text → List Text → Text
append_topic buf [] = buf
append_topic buf (t ∷ ts) =
    append_topic (if length t == 0 then buf else append_sanitized_channel_part (buf ++ b'.' ∷ []) t)
      ts

unfoldable pub format_server_channel : Text → List Text → Bool → Text
format_server_channel service topic queue =
    let b = append_topic (runes "SRV." ++ service) topic in if queue then b ++ runes ".Q" else b
