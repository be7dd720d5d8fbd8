-- ===== src/Api/Clash.antt =====
-- Patterns that the table of routes has twice.
use cpu_process_exporter.Base.{
  ℕ, ◌≡◌, refl, ap, true, not, List, [], ◌∷◌, Bytes, codes, All, Distinct, keys, has_prefix,
  is_empty,
}
use cpu_process_exporter.Config.{ServerConfig, Config}
use cpu_process_exporter.Config.Accepted.{IsAccepted, load-IsAccepted, append-eq-nil}
use cpu_process_exporter.Config.Load.{
  PathInfo, Files, ok, load, normalise, validate, check_scan, check_filter, check_naming, check,
  Problem,
}
use cpu_process_exporter.Regexp.{Regexp}
use cpu_process_exporter.Api.Routes.{routes}

-- The patterns besides the metrics path.
abbrev pub fixed : List Bytes
fixed =
    codes "/groups"
    ∷ codes "/config"
    ∷ codes "/stats"
    ∷ codes "/livez"
    ∷ codes "/readyz"
    ∷ codes "/"
    ∷ []

abbrev pub with_path : Bytes → Config → Config
with_path p c = record c { server = record (c.server) { metrics_path = p } }

-- Each of the patterns has its place in the table already.
clashing :
    (cfg : ServerConfig)
    → All (λ p. ¬ Distinct (keys (routes (record cfg { metrics_path = p })))) fixed
unfolding routes
clashing cfg = (
  (λ d. d.0.0 refl),
  (
    (λ d. d.0.1.0 refl),
    (
      (λ d. d.0.1.1.0 refl),
      ((λ d. d.0.1.1.1.0 refl), ((λ d. d.0.1.1.1.1.0 refl), ((λ d. d.0.1.1.1.1.1.0 refl), tt))),
    ),
  ),
)

module _ {R M : Type 0} (rx : Regexp R M) where
  with_path-valid :
      (stat_path : Bytes → PathInfo) (p : Bytes) (c : Config)
      → has_prefix p (codes "/") ≡ true
      → validate rx stat_path c ≡ []
      → validate rx stat_path (with_path p c) ≡ []
  unfolding validate
  with_path-valid stat_path p c slash h =
      let (e1, k1) = append-eq-nil (check_scan stat_path c.scan) _ h in
      let (e2, k2) = append-eq-nil (check_filter rx c.filter) _ k1 in
      let (e3, k3) = append-eq-nil (check_naming rx c.naming) _ k2 in
      let (e4, k4) = append-eq-nil (check (is_empty c.server.listen) Problem.listen_empty) _ k3 in
      let (e5, k5) =
        append-eq-nil
          (check (not (has_prefix c.server.metrics_path (codes "/"))) Problem.bad_metrics_path) _
          k4 in
      rw (e1, e2, e3, e4, slash) k5

  with_path-IsAccepted :
      (x : ℕ) (p : Bytes) (c : Config)
      → has_prefix (x ∷ p) (codes "/") ≡ true
      → IsAccepted rx c
      → IsAccepted rx (with_path (x ∷ p) c)
  unfolding normalise
  with_path-IsAccepted x p c slash h = record {
    stat_path = h.stat_path;
    valid = with_path-valid h.stat_path (x ∷ p) c slash h.valid;
    normal = ap (with_path (x ∷ p)) h.normal;
  }

  -- From a configuration that Load accepts, putting any of the other patterns for the metrics path gives
  -- one that is valid too and its own normal form, but whose table of routes has a pattern twice.
  pub IsAccepted-clash :
      (fs : Files) (path : Bytes) (c : Config)
      → load rx fs path ≡ ok c
      → All
          (λ p. IsAccepted rx (with_path p c) × (¬ Distinct (keys (routes (with_path p c).server))))
          fixed
  unfolding has_prefix
  IsAccepted-clash fs path c h =
      let is_ok = load-IsAccepted rx fs path c h in
      let clash = clashing c.server in
      (
        (with_path-IsAccepted _ _ c refl is_ok, clash.0),
        (
          (with_path-IsAccepted _ _ c refl is_ok, clash.1.0),
          (
            (with_path-IsAccepted _ _ c refl is_ok, clash.1.1.0),
            (
              (with_path-IsAccepted _ _ c refl is_ok, clash.1.1.1.0),
              (
                (with_path-IsAccepted _ _ c refl is_ok, clash.1.1.1.1.0),
                ((with_path-IsAccepted _ _ c refl is_ok, clash.1.1.1.1.1.0), tt),
              ),
            ),
          ),
        ),
      )
