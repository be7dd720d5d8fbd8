-- ===== src/Base/Orders.antt =====
-- What a sort asks of its comparison, for the comparisons of the program.

use mathlib.Core.Path.{◌≡◌, refl}
use mathlib.Core.Bool.{Bool, true, false}
use mathlib.Core.List.{List, [], ◌∷◌}
use native.Mathlib.Omega.{arith}
use cpu_process_exporter.Base.Tests.{ltb}
use cpu_process_exporter.Base.Lists.{All}
use cpu_process_exporter.Base.Text.{Bytes, ltb_bytes}
use cpu_process_exporter.Base.Int.{ℤ, pos, negsuc, ltb_ℤ}

-- A strict weak order.
pub record IsStrictWeak {A : Type 0} (less : A → A → Bool) : Type 0 where
  pub irrefl : (x : A) → less x x ≡ false
  pub trans : (x y z : A) → less y x ≡ false → less z y ≡ false → less z x ≡ false
  pub asym : (x y : A) → less x y ≡ true → less y x ≡ false

-- No element is less than one before it.
abbrev pub IsOrdered : {A : Type 0} → (A → A → Bool) → List A → Type 0
IsOrdered less [] = Unit
IsOrdered less (x ∷ xs) = All (λ y. less y x ≡ false) xs × IsOrdered less xs

module _ {A B : Type 0} (less : A → A → Bool) (f : B → A) (weak : IsStrictWeak less) where
  pub along-IsStrictWeak : IsStrictWeak (λ a b. less (f a) (f b))
  along-IsStrictWeak = record {
    irrefl = λ x. weak.irrefl (f x);
    trans = λ x y z h k. weak.trans (f x) (f y) (f z) h k;
    asym = λ x y h. weak.asym (f x) (f y) h;
  }

  pub against-IsStrictWeak : IsStrictWeak (λ a b. less (f b) (f a))
  against-IsStrictWeak = record {
    irrefl = λ x. weak.irrefl (f x);
    trans = λ x y z h k. weak.trans (f z) (f y) (f x) k h;
    asym = λ x y h. weak.asym (f y) (f x) h;
  }

pub ltb-IsStrictWeak : IsStrictWeak ltb
ltb-IsStrictWeak = record {
  irrefl = λ x. ground arith;
  trans = λ x y z h k. ground arith;
  asym = λ x y h. ground arith;
}

int_trans : (x y z : ℤ) → ltb_ℤ y x ≡ false → ltb_ℤ z y ≡ false → ltb_ℤ z x ≡ false
int_trans (pos x) (pos y) (pos z) h k = ground arith
int_trans (pos x) (pos y) (negsuc z) h k = ground arith
int_trans (pos x) (negsuc y) z h k = ground arith
int_trans (negsuc x) (pos y) (pos z) h k = ground arith
int_trans (negsuc x) (pos y) (negsuc z) h k = ground arith
int_trans (negsuc x) (negsuc y) (pos z) h k = ground arith
int_trans (negsuc x) (negsuc y) (negsuc z) h k = ground arith

int_irrefl : (x : ℤ) → ltb_ℤ x x ≡ false
int_irrefl (pos x) = ground arith
int_irrefl (negsuc x) = ground arith

int_asym : (x y : ℤ) → ltb_ℤ x y ≡ true → ltb_ℤ y x ≡ false
int_asym (pos x) (pos y) h = ground arith
int_asym (pos x) (negsuc y) h = ground arith
int_asym (negsuc x) (pos y) h = ground arith
int_asym (negsuc x) (negsuc y) h = ground arith

pub ltb_ℤ-IsStrictWeak : IsStrictWeak ltb_ℤ
ltb_ℤ-IsStrictWeak = record { irrefl = int_irrefl; trans = int_trans; asym = int_asym }

bytes_irrefl : (s : Bytes) → ltb_bytes s s ≡ false
unfolding ltb_bytes
bytes_irrefl [] = refl
bytes_irrefl (c ∷ s) = ground (arith, bytes_irrefl s)

bytes_trans :
    (x y z : Bytes) → ltb_bytes y x ≡ false → ltb_bytes z y ≡ false → ltb_bytes z x ≡ false
unfolding ltb_bytes
bytes_trans [] y z h k = refl
bytes_trans (a ∷ x) [] z h k = ground arith
bytes_trans (a ∷ x) (b ∷ y) [] h k = ground arith
bytes_trans (a ∷ x) (b ∷ y) (c ∷ z) h k = ground (arith, bytes_trans x y z)

bytes_asym : (x y : Bytes) → ltb_bytes x y ≡ true → ltb_bytes y x ≡ false
unfolding ltb_bytes
bytes_asym x [] h = ground arith
bytes_asym [] (b ∷ y) h = ground arith
bytes_asym (a ∷ x) (b ∷ y) h = ground (arith, bytes_asym x y)

pub ltb_bytes-IsStrictWeak : IsStrictWeak ltb_bytes
ltb_bytes-IsStrictWeak = record { irrefl = bytes_irrefl; trans = bytes_trans; asym = bytes_asym }
