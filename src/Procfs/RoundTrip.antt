-- ===== src/Procfs/RoundTrip.antt =====
-- Numbers printed by FormatUint are read back by ParseUint and by the listing of the processes.
use cpu_process_exporter.Base.{
  ℕ, ◌-◌, Any, ◌⊎◌, none, Bool, false, zero, suc, ◌+◌, ◌*◌, ◌/◌, ◌%◌, ◌≤◌, ◌<◌, ◌≡◌, refl, sym, ap,
  append_assoc, append-nil, ◌∙◌, true, false, List, [], ◌∷◌, ◌++◌, map, some, Bytes, All, length,
  length-append, ltb, arith, i64_half, inl, inr, Bool-cases, All-append,
}
use cpu_process_exporter.Base.Int.{pos}
use cpu_process_exporter.Procfs.Number.{
  is_digit, parse_uint_loop, parse_uint, max_u64, signed, atoi, format_digits, format_uint,
}
use cpu_process_exporter.Procfs.Pids.{positive_pid, pid_of_name, pids_of_names}

-- The numbers of at most `fuel` digits are those below this one.
abbrev digits_end : ℕ → ℕ
digits_end zero = 1
digits_end (suc fuel) = 10 * digits_end fuel

parse_digit :
    (max acc d : ℕ) (t : Bytes)
    → d < 10
    → acc * 10 + d ≤ max
    → parse_uint_loop max acc ((b'0' + d) ∷ t) ≡ parse_uint_loop max (acc * 10 + d) t
unfolding parse_uint_loop
parse_digit max acc d t small fits = ground arith

parse_digits :
    (max fuel n : ℕ) (t : Bytes)
    → n < digits_end fuel
    → n ≤ max
    → parse_uint_loop max 0 (format_digits fuel n ++ t) ≡ parse_uint_loop max n t
unfolding format_digits
parse_digits max zero n t short fits = ap (λ k. parse_uint_loop max k t) (omega arith)
parse_digits max (suc fuel) n t short fits = ground (
  arith,
  parse_digit max 0 n t,
  parse_digit max (n / 10) (n % 10) t,
  append_assoc (format_digits fuel (n / 10)) ((b'0' + n % 10) ∷ []) t,
  parse_digits max fuel (n / 10) ((b'0' + n % 10) ∷ t),
)

digit-is_digit : (d : ℕ) → d < 10 → is_digit (b'0' + d) ≡ true
digit-is_digit d small = ground arith

format_digits-is_digit : (fuel n : ℕ) → All (λ c. is_digit c ≡ true) (format_digits fuel n)
unfolding format_digits
format_digits-is_digit zero n = tt
format_digits-is_digit (suc fuel) n = elim (Bool-cases (ltb n 10)) [
  | inl last ↦ rw last (digit-is_digit n (ground arith), tt)
  | inr more ↦ rw more (
      All-append (λ c. is_digit c ≡ true) (format_digits fuel (n / 10)) ((b'0' + n % 10) ∷ [])
        (format_digits-is_digit fuel (n / 10)) (digit-is_digit (n % 10) (omega arith), tt))
]

length-format_digits : (fuel n : ℕ) → 0 < length (format_digits (suc fuel) n)
unfolding format_digits
length-format_digits fuel n = elim (Bool-cases (ltb n 10)) [
  | inl last ↦ rw last (omega arith)
  | inr more ↦
      rw more (omega (arith, length-append (format_digits fuel (n / 10)) ((b'0' + n % 10) ∷ [])))
]

first_of :
    (P : ℕ → Type 0) (s : Bytes)
    → 0 < length s
    → All P s
    → (c : ℕ) × (t : Bytes) × (s ≡ c ∷ t) × P c
first_of P [] some_byte h = absurd (omega arith)
first_of P (c ∷ t) some_byte h = (c, t, refl, h.0)

-- The first byte that FormatUint prints is a digit.
format_uint-is_digit :
    (n : ℕ) → (c : ℕ) × (t : Bytes) × (format_uint n ≡ c ∷ t) × (is_digit c ≡ true)
unfolding format_uint
format_uint-is_digit n =
    first_of (λ c. is_digit c ≡ true) (format_digits 20 n) (length-format_digits 19 n)
      (format_digits-is_digit 20 n)

parse_loop-format_uint :
    (max n : ℕ) → max ≤ max_u64 → n ≤ max → parse_uint_loop max 0 (format_uint n) ≡ (n, true)
unfolding format_uint parse_uint_loop
parse_loop-format_uint max n small fits =
    ap (parse_uint_loop max 0) (sym (append-nil (format_digits 20 n)))
    ∙ parse_digits max 20 n [] (omega arith) fits

-- ParseUint reads back, without an error, every number of at most `max` that FormatUint prints, where
-- `max` is that of 64 bits or less.
pub parse_uint-format_uint :
    (max n : ℕ) → max ≤ max_u64 → n ≤ max → parse_uint max (format_uint n) ≡ (n, true)
unfolding parse_uint
parse_uint-format_uint max n small fits =
    let (c, t, is, digit) = format_uint-is_digit n in
    ap (parse_uint max) is
    ∙ ap (parse_uint_loop max 0) (sym is)
    ∙ parse_loop-format_uint max n small fits

signed-pos : (n : ℕ) → 0 < n → n < i64_half → signed false (n, true) ≡ (pos n, true)
unfolding signed
signed-pos n positive fits = ground arith

atoi_digit :
    (c : ℕ) (t : Bytes)
    → is_digit c ≡ true
    → atoi (c ∷ t) ≡ signed false (parse_uint max_u64 (c ∷ t))
unfolding atoi
atoi_digit c t digit = ground arith

pid_of_digits :
    (c : ℕ) (t : Bytes) (n : ℕ)
    → is_digit c ≡ true
    → 0 < n
    → atoi (c ∷ t) ≡ (pos n, true)
    → pid_of_name (c ∷ t) ≡ some n
unfolding pid_of_name
pid_of_digits c t n digit positive read = ground arith

pid_of_name-format_uint : (n : ℕ) → 0 < n → n < i64_half → pid_of_name (format_uint n) ≡ some n
pid_of_name-format_uint n positive fits =
    let (c, t, is, digit) = format_uint-is_digit n in
    let number = parse_uint-format_uint max_u64 n (omega arith) (omega arith) in
    ap pid_of_name is
    ∙ pid_of_digits c t n digit positive (
        atoi_digit c t digit
        ∙ ap (signed false) (ap (parse_uint max_u64) (sym is) ∙ number)
        ∙ signed-pos n positive fits)

parse_uint_loop_bad :
    (max n : ℕ) (s : Bytes) → Any (λ c. is_digit c ≡ false) s → (parse_uint_loop max n s).1 ≡ false
unfolding parse_uint_loop
parse_uint_loop_bad max n [] h = absurd h
parse_uint_loop_bad max n (c ∷ s) h = elim (Bool-cases (is_digit c)) [
  | inl digit ↦ elim h [
    | inl bad ↦ ground (arith, digit, bad)
    | inr later ↦ ground (arith, digit, parse_uint_loop_bad max (n * 10 + (c - b'0')) s later)
  ]
  | inr bad ↦ ground (arith, bad)
]

positive_pid_bad : (neg : Bool) (r : ℕ × Bool) → r.1 ≡ false → positive_pid (signed neg r) ≡ none
unfolding signed
positive_pid_bad neg (n, fine) h = ground (arith, h)

-- No name of a PID: it is empty, or some byte of it is no digit.
abbrev pub IsOther : Bytes → Type 0
IsOther name = (name ≡ []) ⊎ Any (λ c. is_digit c ≡ false) name

pid_of_bad :
    (c : ℕ) (s : Bytes) → Any (λ c. is_digit c ≡ false) (c ∷ s) → pid_of_name (c ∷ s) ≡ none
unfolding pid_of_name parse_uint
pid_of_bad c s h = elim (Bool-cases (is_digit c)) [
  | inl digit ↦
      rw (digit, atoi_digit c s digit)
        (positive_pid_bad false (parse_uint max_u64 (c ∷ s))
          (parse_uint_loop_bad max_u64 0 (c ∷ s) h))
  | inr bad ↦ rw bad refl
]

pid_of_name-IsOther : (name : Bytes) → IsOther name → pid_of_name name ≡ none
unfolding pid_of_name
pid_of_name-IsOther [] h = refl
pid_of_name-IsOther (c ∷ s) h = elim h [ inl empty ↦ absurd (cc) | inr bad ↦ pid_of_bad c s bad ]

-- A name of the directory: that of a process, or another.
pub data Entry : Type 0 where
  process : ℕ → Entry
  other : Bytes → Entry

abbrev pub name_of : Entry → Bytes
name_of (process n) = format_uint n
name_of (other name) = name

abbrev pub processes : List Entry → List ℕ
processes [] = []
processes (process n ∷ es) = n ∷ processes es
processes (other name ∷ es) = processes es

abbrev pub IsListed : Entry → Type 0
IsListed (process n) = (0 < n) × (n < i64_half)
IsListed (other name) = IsOther name

-- Of a directory in which the decimal digits of PIDs, positive and below 2^63, stand among other names,
-- each of them empty or with a byte that is no digit, the listing finds every PID and nothing else, in
-- order.
pub pids_of_names-format_uint :
    (es : List Entry) → All IsListed es → pids_of_names (map name_of es) ≡ processes es
unfolding pids_of_names
pids_of_names-format_uint [] h = refl
pids_of_names-format_uint (process n ∷ es) h =
    rw (pid_of_name-format_uint n h.0.0 h.0.1) (ap (◌∷◌ n) (pids_of_names-format_uint es h.1))
pids_of_names-format_uint (other name ∷ es) h =
    rw (pid_of_name-IsOther name h.0) (pids_of_names-format_uint es h.1)
