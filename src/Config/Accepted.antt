-- ===== src/Config/Accepted.antt =====
-- What Parse promises: a configuration that it accepts has no problem, and normalising it again changes
-- nothing.
use cpu_process_exporter.Base.{
  ◌≡◌, refl, sym, ap, ◌∙◌, Bool, true, false, List, [], ◌∷◌, ◌++◌, map, Option, none, some, Bytes,
  codes, if◌then◌else◌, arith,
}
use cpu_process_exporter.Config.{NamingRule, Config}
use cpu_process_exporter.Config.Defaults.{
  default_ignore_comm, default_ignore_comm_prefix, default_ignore_comm_regex, default_naming_rules,
  default,
}
use cpu_process_exporter.Config.Load.{
  PathInfo, Files, Problem, ok, or_default, text_or, with_from, with_froms, normalise, check,
  validate, accept, parsed, parse, load, read_text, is_json_path,
}
use cpu_process_exporter.Regexp.{Regexp}

pub append-eq-nil : {A : Type 0} (xs ys : List A) → xs ++ ys ≡ [] → (xs ≡ []) × (ys ≡ [])
append-eq-nil [] ys h = (refl, h)
append-eq-nil (x ∷ xs) ys h = cc

pub check-eq-nil : (b : Bool) (p : Problem) → check b p ≡ [] → b ≡ false
check-eq-nil false p h = refl
check-eq-nil true p h = cc

text_or_idem : (s d : Bytes) → text_or (text_or s d) d ≡ text_or s d
text_or_idem [] [] = refl
text_or_idem [] (c ∷ d) = refl
text_or_idem (c ∷ s) d = refl

with_from_idem : (r : NamingRule) → with_from (with_from r) ≡ with_from r
with_from_idem r = ap (λ s. record r { from = s }) (text_or_idem r.from (codes "cmdline"))

with_froms_idem : (rs : List NamingRule) → map with_from (map with_from rs) ≡ map with_from rs
with_froms_idem [] = refl
with_froms_idem (r ∷ rs) = rw (with_from_idem r, with_froms_idem rs) refl

or_default_idem :
    (A : Type 0) (o : Option (List A)) (ds : List A)
    → or_default (or_default o ds) ds ≡ or_default o ds
or_default_idem A none ds = refl
or_default_idem A (some xs) ds = refl

rules_idem :
    (o : Option (List NamingRule)) (ds : List NamingRule)
    → with_froms (or_default (with_froms (or_default o ds)) ds) ≡ with_froms (or_default o ds)
rules_idem none ds = ap some (with_froms_idem ds)
rules_idem (some rs) ds = ap some (with_froms_idem rs)

-- Normalising a configuration again changes nothing.
pub normalise_idem : (c : Config) → normalise (normalise c) ≡ normalise c
unfolding normalise
normalise_idem c =
    rw
      (
        text_or_idem c.scan.proc_path (codes "/proc"),
        text_or_idem c.naming.fallback (codes "comm"),
        text_or_idem c.server.metrics_path (codes "/metrics"),
        or_default_idem Bytes c.filter.ignore_comm default_ignore_comm,
        or_default_idem Bytes c.filter.ignore_comm_prefix default_ignore_comm_prefix,
        or_default_idem Bytes c.filter.ignore_comm_regex default_ignore_comm_regex,
        rules_idem c.naming.rules default_naming_rules,
      )
      refl

-- What Parse accepts has no problem, and is its own normal form.
pub record IsAccepted {R M : Type 0} (rx : Regexp R M) (c : Config) : Type 0 where
  pub stat_path : Bytes → PathInfo
  pub valid : validate rx stat_path c ≡ []
  pub normal : normalise c ≡ c

module _ {R M : Type 0} (rx : Regexp R M) where
  accept-ok : (c d : Config) (ps : List Problem) → accept rx c ps ≡ ok d → (ps ≡ []) × (c ≡ d)
  accept-ok c d [] h = ground arith
  accept-ok c d (p ∷ ps) h = cc

  parsed-IsAccepted :
      (fs : Files) (o : Option Config) (c : Config) → parsed rx fs o ≡ ok c → IsAccepted rx c
  parsed-IsAccepted fs none c h = cc
  parsed-IsAccepted fs (some d) c h =
      let (valid, is) = accept-ok (normalise d) c (validate rx fs.stat_path (normalise d)) h in
      record {
        stat_path = fs.stat_path;
        valid = ap (validate rx fs.stat_path) (sym is) ∙ valid;
        normal = ap normalise (sym is) ∙ normalise_idem d ∙ is;
      }

  read_text-IsAccepted :
      (fs : Files) (path : Bytes) (o : Option Bytes) (c : Config)
      → read_text rx fs path o ≡ ok c
      → IsAccepted rx c
  unfolding parse
  read_text-IsAccepted fs path none c h = cc
  read_text-IsAccepted fs path (some text) c h =
      parsed-IsAccepted fs
        (if is_json_path path then fs.decode_json text default else fs.decode_yaml text default) c h

  pub load-IsAccepted :
      (fs : Files) (path : Bytes) (c : Config) → load rx fs path ≡ ok c → IsAccepted rx c
  unfolding load
  load-IsAccepted fs path c h = read_text-IsAccepted fs path (fs.read_file path) c h
