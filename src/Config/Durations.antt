-- ===== src/Config/Durations.antt =====
-- internal/config/config.go: Duration in YAML and JSON. What the decoders make of the value, a text or
-- an int64 or neither, and time.ParseDuration are parameters; an error is none.
use cpu_process_exporter.Base.{
  ℕ, ◌*◌, ◌%◌, ◌<◌, ◌≡◌, Option, none, some, Bytes, arith, u64_mod, i64_half,
}
use cpu_process_exporter.Base.Int.{ℤ, pos, bits64, of_bits64}
use cpu_process_exporter.Config.Defaults.{second}

pub record Scalar : Type 0 where
  pub as_text : Option Bytes
  pub as_int : Option ℤ

-- time.Duration(n) * time.Second, on 64 bits.
unfoldable pub of_seconds : ℤ → ℤ
unfolding bits64 of_bits64
of_seconds n = of_bits64 ((bits64 n * second) % u64_mod)

abbrev from_int : Option ℤ → Option ℤ
from_int none = none
from_int (some n) = some (of_seconds n)

module _ (parse_duration : Bytes → Option ℤ) where
  abbrev from_text : Option Bytes → Option ℤ → Option ℤ
  from_text none n = from_int n
  from_text (some s) n = parse_duration s

  unfoldable pub unmarshal_yaml : Scalar → Option ℤ
  unfolding of_seconds
  unmarshal_yaml v = from_text v.as_text v.as_int

  unfoldable pub unmarshal_json : Scalar → Option ℤ
  unfolding of_seconds
  unmarshal_json v = from_text v.as_text v.as_int

-- A whole number of seconds is taken as it is, as long as its nanoseconds fit.
pub of_seconds-exact : (n : ℕ) → n * second < i64_half → of_seconds (pos n) ≡ pos (n * second)
unfolding of_seconds bits64 of_bits64
of_seconds-exact n h = ground arith
