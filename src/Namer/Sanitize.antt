-- ===== src/Namer/Sanitize.antt =====
-- internal/namer/namer.go: Sanitize, which makes a name safe as a label value.
use cpu_process_exporter.Base.{
  ℕ, Bool, ◌&&◌, ◌||◌, [], ◌∷◌, Bytes, codes, if◌then◌else◌, ◌==◌, leb, ltb, length, take, map,
  trim,
}

abbrev pub max_name_len : ℕ
max_name_len = 128

-- The bytes that Sanitize keeps.
unfoldable pub is_safe : ℕ → Bool
is_safe c =
    leb b'a' c && leb c b'z'
    || leb b'A' c && leb c b'Z'
    || leb b'0' c && leb c b'9'
    || c == b'_'
    || c == b'.'
    || c == b'/'
    || c == b'-'

unfoldable pub safe_byte : ℕ → ℕ
unfolding is_safe
safe_byte c = if is_safe c then c else b'_'

abbrev pub is_underscore : ℕ → Bool
is_underscore c = c == b'_'

abbrev pub or_unknown : Bytes → Bytes
or_unknown [] = codes "unknown"
or_unknown (c ∷ s) = c ∷ s

-- `s[:maxNameLen]` of a text that is longer.
abbrev pub capped : Bytes → Bytes
capped s = if ltb max_name_len (length s) then take max_name_len s else s

unfoldable pub sanitize : Bytes → Bytes
unfolding safe_byte
sanitize [] = codes "unknown"
sanitize (c ∷ s) = or_unknown (trim is_underscore (map safe_byte (capped (c ∷ s))))
