-- ===== src/Tests/Sorts.antt =====
-- Insertion sort as a function that does what sort.Slice documents.
use mathlib.Core.List.{Perm}
use mathlib.Core.List.Perm
use cpu_process_exporter.Base.{
  Bool, List, [], ◌∷◌, All, All-map, IsStrictWeak, IsOrdered, if◌then◌else◌, Bool-cases, inl, inr,
  codes,
}
use cpu_process_exporter.Api.Handlers.{Std}
use cpu_process_exporter.Api.Order.{SortLaws}

module _ {A : Type 0} (less : A → A → Bool) where
  abbrev put_in : A → List A → List A
  put_in x [] = x ∷ []
  put_in x (y ∷ ys) = let rest = put_in x ys in if less y x then y ∷ rest else x ∷ y ∷ ys

  abbrev sort : List A → List A
  sort [] = []
  sort (x ∷ xs) = put_in x (sort xs)

  put_in-perm : (x : A) (ys : List A) → Perm (put_in x ys) (x ∷ ys)
  put_in-perm x [] = Perm.refl (x ∷ [])
  put_in-perm x (y ∷ ys) = elim (Bool-cases (less y x)) [
    | inl h ↦ rw h (Perm.trans (Perm.cons y (put_in-perm x ys)) (Perm.swap x y ys))
    | inr h ↦ rw h (Perm.refl (x ∷ y ∷ ys))
  ]

  sort-perm : (xs : List A) → Perm (sort xs) xs
  sort-perm [] = Perm.refl []
  sort-perm (x ∷ xs) = Perm.trans (put_in-perm x (sort xs)) (Perm.cons x (sort-perm xs))

  put_in-All : (P : A → Type 0) (x : A) (ys : List A) → P x → All P ys → All P (put_in x ys)
  put_in-All P x [] px h = (px, tt)
  put_in-All P x (y ∷ ys) px h = elim (Bool-cases (less y x)) [
    | inl first ↦ rw first (h.0, put_in-All P x ys px h.1)
    | inr first ↦ rw first (px, h)
  ]

  module _ (weak : IsStrictWeak less) where
    put_in-IsOrdered : (x : A) (ys : List A) → IsOrdered less ys → IsOrdered less (put_in x ys)
    put_in-IsOrdered x [] h = (tt, tt)
    put_in-IsOrdered x (y ∷ ys) h = elim (Bool-cases (less y x)) [
      | inl first ↦
          rw first (put_in-All _ x ys (weak.asym y x first) h.0, put_in-IsOrdered x ys h.1)
      | inr first ↦ rw first ((first, All-map (λ z later. weak.trans x y z first later) ys h.0), h)
    ]

    sort-IsOrdered : (xs : List A) → IsOrdered less (sort xs)
    sort-IsOrdered [] = tt
    sort-IsOrdered (x ∷ xs) = put_in-IsOrdered x (sort xs) (sort-IsOrdered xs)

abbrev pub std : {F : Type 0} → Std F
std = record { sort_slice = sort; duration_text = λ d. codes "1s"; truncate = λ d unit. d }

pub std-SortLaws : {F : Type 0} → SortLaws (std {F = F})
std-SortLaws = record {
  sorts = λ less list weak. (sort-IsOrdered less weak list, sort-perm less list);
}
