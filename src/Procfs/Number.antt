-- ===== src/Procfs/Number.antt =====
-- The parts of `strconv` and `strings` that the readers call. Of `Fields` and `TrimSpace` the ASCII
-- spaces are modelled: the texts they get are written by the kernel in ASCII.
use cpu_process_exporter.Base.{
  ℕ, zero, suc, ◌+◌, ◌-◌, ◌*◌, ◌/◌, ◌%◌, Bool, true, false, ◌&&◌, ◌||◌, List, [], ◌∷◌, ◌++◌, Option,
  none, some, Bytes, leb, ltb, ◌==◌, if◌then◌else◌, trim, i64_half,
}
use cpu_process_exporter.Base.Int.{ℤ, pos, negsuc}
use mathlib.Core.Option

abbrev pub is_digit : ℕ → Bool
is_digit c = leb b'0' c && leb c b'9'

-- ParseUint(s, 10, bits) with `max` = 2^bits - 1: the value, and whether the error is nil. On a
-- syntax error the value is 0, on a number out of range it is `max`.
unfoldable pub parse_uint_loop : ℕ → ℕ → Bytes → ℕ × Bool
parse_uint_loop max n [] = (n, true)
parse_uint_loop max n (c ∷ s) =
    let n' = n * 10 + (c - b'0') in
    let rest = parse_uint_loop max n' s in
    if is_digit c then (if ltb max n' then (max, false) else rest) else (0, false)

unfoldable pub parse_uint : ℕ → Bytes → ℕ × Bool
unfolding parse_uint_loop
parse_uint max [] = (0, false)
parse_uint max (c ∷ s) = parse_uint_loop max 0 (c ∷ s)

abbrev pub max_u64 : ℕ
max_u64 = 0xffff_ffff_ffff_ffff

abbrev pub max_u32 : ℕ
max_u32 = 0xffff_ffff

-- The unsigned result of Atoi under its sign. A syntax error gives 0; a number out of range
-- saturates.
unfoldable pub signed : Bool → ℕ × Bool → ℤ × Bool
signed neg (un, fine) =
    if un == 0
    then (pos 0, fine)
    else if neg
    then (if ltb i64_half un then (negsuc (i64_half - 1), false) else (negsuc (un - 1), fine))
    else if leb i64_half un
    then (pos (i64_half - 1), false)
    else (pos un, fine)

-- Atoi(s): an optional sign, then digits.
unfoldable pub atoi : Bytes → ℤ × Bool
unfolding parse_uint signed
atoi [] = (pos 0, false)
atoi (c ∷ s) =
    if c == b'-'
    then signed true (parse_uint max_u64 s)
    else if c == b'+'
    then signed false (parse_uint max_u64 s)
    else signed false (parse_uint max_u64 (c ∷ s))

-- FormatUint(n, 10); twenty digits are enough for a uint64.
unfoldable pub format_digits : ℕ → ℕ → Bytes
format_digits zero n = []
format_digits (suc fuel) n =
    let rest = format_digits fuel (n / 10) in
    if ltb n 10 then (b'0' + n) ∷ [] else rest ++ ((b'0' + n % 10) ∷ [])

unfoldable pub format_uint : ℕ → Bytes
unfolding format_digits
format_uint n = format_digits 20 n

abbrev pub is_space : ℕ → Bool
is_space c = c == b' ' || leb b'\t' c && leb c b'\r'

unfoldable pub trim_space : Bytes → Bytes
unfolding trim
trim_space s = trim is_space s

abbrev pub flush : Bytes → List Bytes → List Bytes
flush [] ws = ws
flush (c ∷ w) ws = (c ∷ w) ∷ ws

-- The word that the text begins with, empty if a space comes first, and the words behind it.
unfoldable pub split_fields : Bytes → Bytes × List Bytes
split_fields [] = ([], [])
split_fields (c ∷ s) =
    let (w, ws) = split_fields s in if is_space c then ([], flush w ws) else (c ∷ w, ws)

-- strings.Fields
unfoldable pub fields : Bytes → List Bytes
unfolding split_fields
fields s = let (w, ws) = split_fields s in flush w ws

-- strings.IndexByte and strings.LastIndexByte
unfoldable pub index_byte : ℕ → Bytes → Option ℕ
index_byte b [] = none
index_byte b (c ∷ s) = if c == b then some 0 else Option.map suc (index_byte b s)

abbrev pub or_head : Bool → Option ℕ → Option ℕ
or_head here (some i) = some (suc i)
or_head true none = some 0
or_head false none = none

unfoldable pub last_index_byte : ℕ → Bytes → Option ℕ
last_index_byte b [] = none
last_index_byte b (c ∷ s) = or_head (c == b) (last_index_byte b s)
