-- ===== src/Filter/Compile.antt =====
-- When New succeeds: it compiles every pattern, and names the first that does not compile.
use cpu_process_exporter.Base.{
  ℕ, suc, ◌+◌, ◌≡◌, refl, ap, ◌∙◌, List, [], ◌∷◌, Option, none, some, Bytes, arith, get_elem?,
}
use cpu_process_exporter.Filter.{PatternError, NewResult, ok, err, ◌>>=◌, compile_all}
use cpu_process_exporter.Regexp.{Regexp}

module _ {R M : Type 0} (rx : Regexp R M) where
  -- The patterns compiled one by one.
  abbrev pub Compiles : List Bytes → List R → Type 0
  Compiles [] [] = Unit
  Compiles (p ∷ ps) (re ∷ res) = (rx.compile p ≡ some re) × Compiles ps res
  Compiles _ _ = ⊥

  -- What a result of the loop says of the patterns.
  abbrev pub Meaning : (ℕ → PatternError) → ℕ → List Bytes → NewResult (List R) → Type 0
  Meaning error i ps (ok res) = Compiles ps res
  Meaning error i ps (err e) =
      (j : ℕ) × (p : Bytes) × (e ≡ error (i + j))
      × (get_elem? ps j ≡ some p)
      × (rx.compile p ≡ none)

  later :
      (error : ℕ → PatternError) (i : ℕ) (p : Bytes) (ps : List Bytes) (re : R)
      (rest : NewResult (List R))
      → rx.compile p ≡ some re
      → Meaning error (suc i) ps rest
      → Meaning error i (p ∷ ps) (rest >>= λ res. ok (re ∷ res))
  later error i p ps re (ok res) is h = (is, h)
  later error i p ps re (err e) is (j, q, e_is, at, fails) =
      (suc j, q, e_is ∙ ap error (omega arith), at, fails)

  head :
      (error : ℕ → PatternError) (i : ℕ) (p : Bytes) (ps : List Bytes) (o : Option R)
      → rx.compile p ≡ o
      → Meaning error (suc i) ps (compile_all rx error (suc i) ps)
      → Meaning error i (p ∷ ps) (compile_all rx error i (p ∷ ps))
  unfolding compile_all
  head error i p ps none is h = rw (is, Meaning) (0, p, ap error (omega arith), refl, is)
  head error i p ps (some re) is h = rw (is, Meaning) (later error i p ps re _ is h)

  -- The loop of New returns the compiled patterns of the list, in their order; where it fails, the error
  -- carries the index of a pattern of the list that does not compile.
  pub compile_all_lem :
      (error : ℕ → PatternError) (i : ℕ) (ps : List Bytes)
      → Meaning error i ps (compile_all rx error i ps)
  unfolding compile_all
  compile_all_lem error i [] = tt
  compile_all_lem error i (p ∷ ps) =
      head error i p ps (rx.compile p) refl (compile_all_lem error (suc i) ps)
