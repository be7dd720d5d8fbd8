-- ===== src/Float.antt =====
-- Go's float64: the type and the operations that the program uses are parameters. What a theorem
-- needs of IEEE 754 arithmetic is a named law, and `ℕ` with exact operations shows that the laws can
-- be met.
use cpu_process_exporter.Base.Int.{ℤ, pos_part}
use cpu_process_exporter.Base.{ℕ, ◌+◌, ◌-◌, ◌/◌, ◌≡◌, Bool, true, false, ltb, ◌==◌, arith}

pub record Float64 (F : Type 0) : Type 0 where
  pub zero_f : F
  -- float64(n) of an unsigned integer, or of an int that is not negative
  pub of_nat : ℕ → F
  -- float64(n) of an int or an int64
  pub of_int : ℤ → F
  pub add_f : F → F → F
  pub sub_f : F → F → F
  pub div_f : F → F → F
  -- a < b
  pub ltb_f : F → F → Bool
  -- a == b
  pub eqb_f : F → F → Bool

-- `<` on numbers that are no NaN is a strict order, total on unequal values. The program divides only
-- by positive numbers, so that no ratio is a NaN.
pub record OrderLaws {F : Type 0} (fl : Float64 F) : Type 0 where
  pub ltb_irrefl : (x : F) → fl.ltb_f x x ≡ false
  pub ltb_trans : (x y z : F) → fl.ltb_f y x ≡ false → fl.ltb_f z y ≡ false → fl.ltb_f z x ≡ false
  pub ltb_asym : (x y : F) → fl.ltb_f x y ≡ true → fl.ltb_f y x ≡ false

abbrev pub exact : Float64 ℕ
exact = record {
  zero_f = 0;
  of_nat = λ n. n;
  of_int = pos_part;
  add_f = ◌+◌;
  sub_f = ◌-◌;
  div_f = ◌/◌;
  ltb_f = ltb;
  eqb_f = ◌==◌;
}

pub exact-OrderLaws : OrderLaws exact
exact-OrderLaws = record {
  ltb_irrefl = λ x. ground arith;
  ltb_trans = λ x y z h k. ground arith;
  ltb_asym = λ x y h. ground arith;
}
