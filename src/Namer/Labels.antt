-- ===== src/Namer/Labels.antt =====
-- What Sanitize promises: every name of the namer is a safe label value.
use cpu_process_exporter.Base.{
  ℕ, ◌≤◌, ◌<◌, ◌≡◌, refl, ap, ◌∙◌, Bool, true, [], ◌∷◌, map, Bytes, Option, none, some, All, length,
  length-map, length-take, take, drop_while, trim_right, trim, arith, if◌then◌else◌, ltb,
}
use cpu_process_exporter.Namer.{Namer, Input, first_name, fallback_name, named, name}
use cpu_process_exporter.Namer.Sanitize.{
  max_name_len, is_safe, safe_byte, is_underscore, or_unknown, capped, sanitize,
}
use cpu_process_exporter.Regexp.{Regexp}

abbrev pub AllSafe : Bytes → Type 0
AllSafe s = All (λ c. is_safe c ≡ true) s

-- No underscore at either end, and not empty.
abbrev pub IsLabel : Bytes → Type 0
IsLabel s = (0 < length s) × (length s ≤ max_name_len) × AllSafe s × (trim is_underscore s ≡ s)

safe_byte-is_safe : (c : ℕ) → is_safe (safe_byte c) ≡ true
unfolding safe_byte is_safe
safe_byte-is_safe c = ground arith

safe_byte_same : (c : ℕ) → is_safe c ≡ true → safe_byte c ≡ c
unfolding safe_byte
safe_byte_same c h = ground arith

map-safe : (s : Bytes) → AllSafe (map safe_byte s)
map-safe [] = tt
map-safe (c ∷ s) = (safe_byte-is_safe c, map-safe s)

map_same : (s : Bytes) → AllSafe s → map safe_byte s ≡ s
map_same [] h = refl
map_same (c ∷ s) h = rw (safe_byte_same c h.0, map_same s h.1) refl

module _ (p : ℕ → Bool) where
  length-drop_while : (s : Bytes) → length (drop_while p s) ≤ length s
  unfolding drop_while
  length-drop_while [] = omega arith
  length-drop_while (c ∷ s) = ground (arith, length-drop_while s)

  length-trim_right : (s : Bytes) → length (trim_right p s) ≤ length s
  unfolding trim_right
  length-trim_right [] = omega arith
  length-trim_right (c ∷ s) = ground (arith, length-trim_right s)

  drop_while-All : (Q : ℕ → Type 0) (s : Bytes) → All Q s → All Q (drop_while p s)
  unfolding drop_while
  drop_while-All Q [] h = tt
  drop_while-All Q (c ∷ s) h = ground (arith, drop_while-All Q s h.1)

  trim_right-All : (Q : ℕ → Type 0) (s : Bytes) → All Q s → All Q (trim_right p s)
  unfolding trim_right
  trim_right-All Q [] h = tt
  trim_right-All Q (c ∷ s) h = ground (arith, trim_right-All Q s h.1)

  trim_right_idem : (s : Bytes) → trim_right p (trim_right p s) ≡ trim_right p s
  unfolding trim_right
  trim_right_idem [] = refl
  trim_right_idem (c ∷ s) = ground (arith, trim_right_idem s)

  drop_while-trim_right :
      (s : Bytes) → drop_while p (trim_right p (drop_while p s)) ≡ trim_right p (drop_while p s)
  unfolding drop_while trim_right
  drop_while-trim_right [] = refl
  drop_while-trim_right (c ∷ s) = ground (arith, drop_while-trim_right s)

  trim_idem : (s : Bytes) → trim p (trim p s) ≡ trim p s
  unfolding trim
  trim_idem s = ap (trim_right p) (drop_while-trim_right s) ∙ trim_right_idem (drop_while p s)

cap-length : (n : ℕ) (s : Bytes) → length (if ltb n (length s) then take n s else s) ≤ n
cap-length n s = ground (arith, length-take n s)

cap_same : (n : ℕ) (s : Bytes) → length s ≤ n → (if ltb n (length s) then take n s else s) ≡ s
cap_same n s h = ground arith

capped-length : (s : Bytes) → length (capped s) ≤ max_name_len
capped-length s = cap-length max_name_len s

capped_same : (s : Bytes) → length s ≤ max_name_len → capped s ≡ s
capped_same s h = cap_same max_name_len s h

-- What is left of a text between the map and the default.
abbrev core : Bytes → Bytes
core s = trim is_underscore (map safe_byte (capped s))

core-length : (s : Bytes) → length (core s) ≤ max_name_len
unfolding trim
core-length s = omega (
  arith,
  length-trim_right is_underscore (drop_while is_underscore (map safe_byte (capped s))),
  length-drop_while is_underscore (map safe_byte (capped s)),
  length-map (capped s) safe_byte,
  capped-length s,
)

core-AllSafe : (s : Bytes) → AllSafe (core s)
unfolding trim
core-AllSafe s =
    trim_right-All is_underscore _ _ (drop_while-All is_underscore _ _ (map-safe (capped s)))

or_unknown-IsLabel :
    (s : Bytes)
    → length s ≤ max_name_len
    → AllSafe s
    → trim is_underscore s ≡ s
    → IsLabel (or_unknown s)
unfolding is_safe trim drop_while trim_right
or_unknown-IsLabel [] short safe trimmed = ground arith
or_unknown-IsLabel (c ∷ s) short safe trimmed = (omega arith, short, safe, trimmed)

pub sanitize-IsLabel : (s : Bytes) → IsLabel (sanitize s)
unfolding sanitize trim drop_while trim_right
sanitize-IsLabel [] = or_unknown-IsLabel [] (omega arith) tt refl
sanitize-IsLabel (c ∷ s) =
    or_unknown-IsLabel (core (c ∷ s)) (core-length (c ∷ s)) (core-AllSafe (c ∷ s))
      (trim_idem is_underscore (map safe_byte (capped (c ∷ s))))

-- A label is its own sanitized form, so that Sanitize is idempotent.
sanitize_same : (s : Bytes) → IsLabel s → sanitize s ≡ s
unfolding sanitize
sanitize_same [] h = absurd (omega (arith, h.0))
sanitize_same (c ∷ s) (some_byte, short, safe, trimmed) =
    let same : core (c ∷ s) ≡ c ∷ s =
      rw (capped_same (c ∷ s) short) (rw (map_same (c ∷ s) safe) trimmed) in
    ap or_unknown same

named-IsLabel :
    {R M : Type 0} (rx : Regexp R M) (o : Option Bytes) (fallback : Bytes)
    → IsLabel (named rx o fallback)
named-IsLabel rx none fallback = sanitize-IsLabel fallback
named-IsLabel rx (some s) fallback = sanitize-IsLabel s

-- The name of a process, whichever rule or fallback it comes from, is a safe label: 1 to 128 bytes,
-- all of them letters, digits, `_`, `.`, `/` or `-`, with no underscore at either end; sanitized again
-- it stays the same.
pub name-IsLabel :
    {R M : Type 0} (rx : Regexp R M) (n : Namer R) (i : Input)
    → IsLabel (name rx n i) × (sanitize (name rx n i) ≡ name rx n i)
unfolding name
name-IsLabel rx n i =
    let named_is = named-IsLabel rx (first_name rx n.rules i) (fallback_name n i) in
    (named_is, sanitize_same _ named_is)
