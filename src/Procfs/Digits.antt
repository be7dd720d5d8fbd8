-- ===== src/Procfs/Digits.antt =====
-- The decimal digits: itoa of internal/scan/scan.go against strconv, and FormatUint against ParseUint.
use cpu_process_exporter.Base.{
  ℕ, zero, suc, ◌+◌, ◌/◌, ◌%◌, ◌<◌, ◌≡◌, refl, append_assoc, append-nil, ◌∙◌, [], ◌∷◌, ◌++◌, Bytes,
  codes, inl, inr, Bool-cases, ◌==◌, if◌then◌else◌, arith,
}
use cpu_process_exporter.Procfs.Number.{format_digits, format_uint}
use cpu_process_exporter.Scan.Steps.{itoa_loop, itoa}

itoa_loop-zero : (fuel : ℕ) (buf : Bytes) → itoa_loop fuel 0 buf ≡ buf
unfolding itoa_loop
itoa_loop-zero zero buf = refl
itoa_loop-zero (suc fuel) buf = refl

itoa_loop-format_digits :
    (fuel n : ℕ) (buf : Bytes) → 0 < n → itoa_loop fuel n buf ≡ format_digits fuel n ++ buf
unfolding itoa_loop format_digits
itoa_loop-format_digits zero n buf h = refl
itoa_loop-format_digits (suc fuel) n buf h = ground (
  arith,
  itoa_loop-zero fuel ((b'0' + n % 10) ∷ buf),
  itoa_loop-format_digits fuel (n / 10) ((b'0' + n % 10) ∷ buf),
  append_assoc (format_digits fuel (n / 10)) ((b'0' + n % 10) ∷ []) buf,
)

digits_same :
    (fuel n : ℕ)
    → (if n == 0 then codes "0" else itoa_loop (suc fuel) n []) ≡ format_digits (suc fuel) n
unfolding format_digits
digits_same fuel n = elim (Bool-cases (n == 0)) [
  | inl none_left ↦ ground arith
  | inr some_left ↦ rw some_left (
      itoa_loop-format_digits (suc fuel) n [] (ground arith)
      ∙ append-nil (format_digits (suc fuel) n))
]

-- The digits that itoa writes by hand are those of FormatUint.
pub itoa-format_uint : (n : ℕ) → itoa n ≡ format_uint n
unfolding itoa format_uint
itoa-format_uint n = digits_same 19 n
