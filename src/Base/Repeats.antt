-- ===== src/Base/Repeats.antt =====
-- Lists without repetition.
use Prim.Native.Nat.{ℕ, suc, ◌≤◌, ◌<◌}
use mathlib.Core.Path.{◌≡◌, ap}
use mathlib.Core.Logic.{◌≢◌, inl, inr}
use mathlib.Core.Bool.{Bool, true, ◌&&◌}
use mathlib.Core.List.{List, [], ◌∷◌, ◌++◌, map}
use native.Mathlib.Omega.{arith}
use cpu_process_exporter.Base.Tests.{leb, leb→le, Bool-cases}
use cpu_process_exporter.Base.Lists.{All, All-append}
use cpu_process_exporter.Base.Assoc.{Eq, insert}

module _ {ℓ} {A : Type ℓ} where
  -- No two places of the list have the same element.
  abbrev pub Distinct : List A → Type ℓ
  Distinct [] = Unit
  Distinct (x ∷ xs) = All (λ y. x ≢ y) xs × Distinct xs

  -- No element of the one list is in the other.
  abbrev pub Disjoint : List A → List A → Type ℓ
  Disjoint [] ys = Unit
  Disjoint (x ∷ xs) ys = All (λ y. x ≢ y) ys × Disjoint xs ys

  pub Distinct-append :
      (xs ys : List A) → Distinct xs → Distinct ys → Disjoint xs ys → Distinct (xs ++ ys)
  Distinct-append [] ys dx dy apart = dy
  Distinct-append (x ∷ xs) ys dx dy apart =
      (All-append (λ y. x ≢ y) xs ys dx.0 apart.0, Distinct-append xs ys dx.1 dy apart.1)

  pub All-map {κ μ} :
      {P : A → Type κ} {Q : A → Type μ} (h : (x : A) → P x → Q x) (xs : List A)
      → All P xs
      → All Q xs
  All-map h [] ps = tt
  All-map h (x ∷ xs) ps = (h x ps.0, All-map h xs ps.1)

  -- Two predicates that exclude each other keep two lists apart.
  pub Disjoint-of {κ μ} :
      {P : A → Type κ} {Q : A → Type μ} (h : (x y : A) → P x → Q y → x ≢ y) (xs ys : List A)
      → All P xs
      → All Q ys
      → Disjoint xs ys
  Disjoint-of h [] ys px qy = tt
  Disjoint-of h (x ∷ xs) ys px qy =
      (All-map (λ y q. h x y px.0 q) ys qy, Disjoint-of h xs ys px.1 qy)

module _ {ℓ} {A : Type ℓ} (f : A → ℕ) where
  -- The list ascends strictly under `f`, from `lo` and below `hi`.
  abbrev pub ascending : ℕ → ℕ → List A → Bool
  ascending lo hi [] = leb lo hi
  ascending lo hi (x ∷ xs) = leb lo (f x) && ascending (suc (f x)) hi xs

  and_split : (a b : Bool) → (a && b) ≡ true → (a ≡ true) × (b ≡ true)
  and_split a b h = ground arith

  ascending_end : (lo hi : ℕ) (xs : List A) → ascending lo hi xs ≡ true → lo ≤ hi
  ascending_end lo hi [] h = leb→le lo hi h
  ascending_end lo hi (x ∷ xs) h =
      let (now, later) = and_split (leb lo (f x)) (ascending (suc (f x)) hi xs) h in
      omega (arith, leb→le lo (f x) now, ascending_end (suc (f x)) hi xs later)

  pub ascending-All :
      (lo hi : ℕ) (xs : List A) → ascending lo hi xs ≡ true → All (λ x. (lo ≤ f x) × (f x < hi)) xs
  ascending-All lo hi [] h = tt
  ascending-All lo hi (x ∷ xs) h =
      let (now, later) = and_split (leb lo (f x)) (ascending (suc (f x)) hi xs) h in
      let here : lo ≤ f x = leb→le lo (f x) now in
      (
        (here, ascending_end (suc (f x)) hi xs later),
        All-map (λ y (above, below). (omega (arith, here, above), below)) xs
            (ascending-All (suc (f x)) hi xs later),
      )

  pub ascending-Distinct : (lo hi : ℕ) (xs : List A) → ascending lo hi xs ≡ true → Distinct xs
  ascending-Distinct lo hi [] h = tt
  ascending-Distinct lo hi (x ∷ xs) h =
      let (now, later) = and_split (leb lo (f x)) (ascending (suc (f x)) hi xs) h in
      (
        All-map (λ y within same. omega (arith, within.0, ap f same)) xs
            (ascending-All (suc (f x)) hi xs later),
        ascending-Distinct (suc (f x)) hi xs later,
      )

module _ {ℓ κ} {K : Type ℓ} {V : Type κ} where
  abbrev pub keys : List (K × V) → List K
  keys [] = []
  keys ((k, v) ∷ m) = k ∷ keys m

  module _ ⦃e : Eq K⦄ where
    insert-All {μ} :
        (P : K → Type μ) (k : K) (v : V) (m : List (K × V))
        → P k
        → All P (keys m)
        → All P (keys (insert k v m))
    unfolding insert
    insert-All P k v [] pk h = (pk, tt)
    insert-All P k v ((j, w) ∷ m) pk h = elim (Bool-cases (e.beq j k)) [
      | inl same ↦ rw same h
      | inr other ↦ rw other (h.0, insert-All P k v m pk h.1)
    ]

    -- Writing to a map keeps its keys distinct.
    pub insert-Distinct :
        (k : K) (v : V) (m : List (K × V)) → Distinct (keys m) → Distinct (keys (insert k v m))
    unfolding insert
    insert-Distinct k v [] h = (tt, tt)
    insert-Distinct k v ((j, w) ∷ m) h = elim (Bool-cases (e.beq j k)) [
      | inl same ↦ rw same h
      | inr other ↦ rw other (
        insert-All (λ i. j ≢ i) k v m (λ same. ground (arith, other, (e.beq_iff j k).1 same)) h.0,
        insert-Distinct k v m h.1,
      )
    ]

module _ {ℓ κ} {A : Type ℓ} {B : Type κ} (f : A → B) where
  pub All-of-map {μ} : (P : B → Type μ) (xs : List A) → All (λ x. P (f x)) xs → All P (map f xs)
  All-of-map P [] h = tt
  All-of-map P (x ∷ xs) h = (h.0, All-of-map P xs h.1)
