-- ===== src/Scan/Batches.antt =====
-- The batches and the sleeps change nothing of what a scan reads.
use cpu_process_exporter.Base.{
  ℕ, zero, suc, ◌+◌, ◌-◌, ◌<◌, ◌≡◌, ◌≢◌, refl, sym, ap, ◌∙◌, inl, inr, Bool, false, List, [], ◌∷◌,
  ◌++◌, if◌then◌else◌, ltb, length, take, drop, take-append-drop, drop_all, drop-drop, length-drop,
  arith, Bool-cases,
}
use cpu_process_exporter.Scan.State.{St, Env}
use cpu_process_exporter.Scan.Loop.{Context, done, out_of_fuel, read_all, walk}

-- Nothing cancels the scan.
pub record Runs (ctx : Context) : Type 0 where
  pub no_err : (k : ℕ) → ctx.err_at k ≡ false
  pub not_done : (k : ℕ) → ctx.done_at k ≡ false

abbrev pub end_of : ℕ → ℕ → ℕ
end_of total next = if ltb total next then total else next

-- What is left behind the batch at `i` is what is left from the next index on.
drop_batch :
    (pids : List ℕ) (i batch : ℕ)
    → i < length pids
    → drop (end_of (length pids) (i + batch) - i) (drop i pids) ≡ drop (i + batch) pids
drop_batch pids i batch h = elim (Bool-cases (ltb (length pids) (i + batch))) [
  | inl past ↦ rw past (
      drop_all _ (drop i pids) (omega (arith, length-drop i pids))
      ∙ sym (drop_all _ pids (ground arith)))
  | inr fits ↦ rw fits (rw drop-drop (ap (λ n. drop n pids) (ground arith)))
]

module _ {F R M : Type 0} (env : Env F R M) where
  read_all-append :
      (xs ys : List ℕ) (s : St F) → read_all env (xs ++ ys) s ≡ read_all env ys (read_all env xs s)
  unfolding read_all
  read_all-append [] ys s = refl
  read_all-append (x ∷ xs) ys s = read_all-append xs ys _

  read_all-nil : (s : St F) → read_all env [] s ≡ s
  unfolding read_all
  read_all-nil s = refl

  read_all_batch :
      (pids : List ℕ) (i batch : ℕ) (s : St F)
      → i < length pids
      → read_all env
          (drop (i + batch) pids)
          (read_all env (take (end_of (length pids) (i + batch) - i) (drop i pids)) s)
        ≡ read_all env (drop i pids) s
  read_all_batch pids i batch s h =
      rw (← drop_batch pids i batch h) (
        sym (read_all-append _ _ s) ∙ ap (λ l. read_all env l s) (take-append-drop _ (drop i pids)))

  pub walk-read_all :
      (ctx : Context) (pids : List ℕ) (batch : ℕ) (sleeps : Bool)
      → Runs ctx
      → 0 < batch
      → (fuel k i : ℕ) (s : St F) → length pids - i < fuel
      → walk env ctx pids batch sleeps fuel k i s ≡ (done tt, read_all env (drop i pids) s)
  unfolding walk
  walk-read_all ctx pids batch sleeps runs pos zero k i s h = absurd (omega arith)
  walk-read_all ctx pids batch sleeps runs pos (suc fuel) k i s h =
      elim (Bool-cases (ltb i (length pids))) [
        | inl inside ↦
            rw (inside, runs.no_err k, runs.not_done k)
              (ground (
                arith,
                walk-read_all ctx pids batch sleeps runs pos fuel (suc k) (i + batch)
                    (read_all env (take (end_of (length pids) (i + batch) - i) (drop i pids)) s),
                read_all_batch pids i batch s,
              ))
        | inr past ↦ rw past (ground (arith, drop_all i pids, read_all-nil s))
      ]

  -- A walk that ends by its test has read every process, in order.
  pub walk-done :
      (ctx : Context) (pids : List ℕ) (batch : ℕ) (sleeps : Bool)
      → 0 < batch
      → (fuel k i : ℕ) (s s' : St F) → walk env ctx pids batch sleeps fuel k i s ≡ (done tt, s')
      → s' ≡ read_all env (drop i pids) s
  unfolding walk
  walk-done ctx pids batch sleeps pos zero k i s s' h = cc
  walk-done ctx pids batch sleeps pos (suc fuel) k i s s' h =
      elim (Bool-cases (ltb i (length pids))) [
        | inl inside ↦ ground (
          arith,
          walk-done ctx pids batch sleeps pos fuel (suc k) (i + batch)
              (read_all env (take (end_of (length pids) (i + batch) - i) (drop i pids)) s) s',
          read_all_batch pids i batch s,
        )
        | inr past ↦ ground (arith, drop_all i pids, read_all-nil s)
      ]

  -- The fuel that Scan gives is enough, whatever the context does.
  pub walk-ne-out_of_fuel :
      (ctx : Context) (pids : List ℕ) (batch : ℕ) (sleeps : Bool)
      → 0 < batch
      → (fuel k i : ℕ) (s : St F) → length pids - i < fuel
      → (walk env ctx pids batch sleeps fuel k i s).0 ≢ out_of_fuel
  unfolding walk
  walk-ne-out_of_fuel ctx pids batch sleeps pos zero k i s h = absurd (omega arith)
  walk-ne-out_of_fuel ctx pids batch sleeps pos (suc fuel) k i s h = ground (
    arith,
    walk-ne-out_of_fuel ctx pids batch sleeps pos fuel (suc k) (i + batch)
        (read_all env (take (end_of (length pids) (i + batch) - i) (drop i pids)) s),
  )
