-- ===== src/Config/Delivery.antt =====
-- What the watcher promises: the active configuration can be used, and no subscriber is left with an
-- older one.
use cpu_process_exporter.Base.{
  ℕ, zero, suc, ◌≡◌, refl, ◌⊎◌, inl, inr, Bool, true, false, not, ◌&&◌, List, [], ◌∷◌, Option, none,
  some, Bytes, is_empty, is_some, if◌then◌else◌, All, All-append, Bool-cases,
}
use cpu_process_exporter.Config.{Config}
use cpu_process_exporter.Config.Usable.{IsUsable, load-IsUsable}
use cpu_process_exporter.Config.Equal.{equal}
use cpu_process_exporter.Config.Load.{Files, Loaded, ok, err, load}
use cpu_process_exporter.Config.Watcher.{
  FileInfo, Subscriber, Watcher, Schedule, Seen, Event, hangup, tick, subscribed, took, subscribe,
  receive, offer, publish, install, current, same_file, reload_at, reload, receive_at, step, run,
  new_watcher, take_value, receive_if, send, drain, resend,
}
use cpu_process_exporter.Regexp.{Regexp}

abbrev newest_of : Option Config → List Config → Option Config
newest_of (some c) got = some c
newest_of none [] = none
newest_of none (c ∷ got) = some c

-- The newest configuration that a subscriber has, in its channel or received.
abbrev pub newest : Subscriber → Option Config
newest s = newest_of s.buffered s.received

newest-take_value :
    (s : Subscriber) (o : Option Config) → s.buffered ≡ o → newest (take_value s o) ≡ newest s
newest-take_value s none is = refl
newest-take_value s (some c) is = rw is refl

newest-receive : (s : Subscriber) → newest (receive s) ≡ newest s
unfolding receive
newest-receive s = newest-take_value s s.buffered refl

resend_newest :
    (cfg : Config) (b : Bool) (s : Subscriber)
    → newest (send cfg (receive_if b (drain s))) ≡ some cfg
unfolding receive
resend_newest cfg true s = refl
resend_newest cfg false s = refl

offered_newest :
    (cfg : Config) (sch : Schedule) (s : Subscriber) (b : Bool)
    → is_some s.buffered ≡ b
    → newest (if is_some s.buffered then resend cfg sch s else send cfg s) ≡ some cfg
offered_newest cfg sch s false is = rw is refl
offered_newest cfg sch s true is =
    rw is (resend_newest cfg sch.before_resend (receive_if sch.before_drain s))

-- Whatever the subscriber does meanwhile, publish leaves it with the new configuration as its newest.
pub offer-newest :
    (cfg : Config) (sch : Schedule) (s : Subscriber) → newest (offer cfg sch s) ≡ some cfg
unfolding offer
offer-newest cfg sch s =
    let s' = receive_if sch.before_send s in offered_newest cfg sch s' (is_some s'.buffered) refl

publish-newest :
    (cfg : Config) (sch : ℕ → Schedule) (i : ℕ) (subs : List Subscriber)
    → All (λ s. newest s ≡ some cfg) (publish cfg sch i subs)
unfolding publish
publish-newest cfg sch i [] = tt
publish-newest cfg sch i (s ∷ subs) =
    (offer-newest cfg (sch i) s, publish-newest cfg sch (suc i) subs)

-- The subscriber was sent nothing yet, or the newest that it has is the given configuration.
abbrev pub IsLatest : Config → Subscriber → Type 0
IsLatest cfg s = (newest s ≡ none) ⊎ (newest s ≡ some cfg)

weaken :
    (cfg : Config) (subs : List Subscriber)
    → All (λ s. newest s ≡ some cfg) subs
    → All (IsLatest cfg) subs
weaken cfg [] h = tt
weaken cfg (s ∷ subs) h = (inr h.0, weaken cfg subs h.1)

receive_at-IsLatest :
    (cfg : Config) (i : ℕ) (subs : List Subscriber)
    → All (IsLatest cfg) subs
    → All (IsLatest cfg) (receive_at i subs)
receive_at-IsLatest cfg i [] h = tt
receive_at-IsLatest cfg zero (s ∷ subs) h = (rw (newest-receive s) h.0, h.1)
receive_at-IsLatest cfg (suc i) (s ∷ subs) h = (h.0, receive_at-IsLatest cfg i subs h.1)

-- The active configuration is one that the program can use, and every subscriber is up to date.
pub record IsSound {R M : Type 0} (rx : Regexp R M) (w : Watcher) : Type 0 where
  pub config : Config
  pub active : current w ≡ some config
  pub usable : IsUsable rx config
  pub latest : All (IsLatest config) w.subs

module _ {R M : Type 0} (rx : Regexp R M) where
  install-IsSound :
      (w : Watcher) (fi : FileInfo) (sch : ℕ → Schedule) (fs : Files) (l : Loaded)
      → load rx fs w.path ≡ l
      → IsSound rx w
      → IsSound rx (install w fi sch l)
  unfolding install current
  install-IsSound w fi sch fs (err e) is h = h
  install-IsSound w fi sch fs (ok cfg) is h = elim (Bool-cases (equal w.cur (some cfg))) [
    | inl same ↦
        rw same
          (record { config = h.config; active = h.active; usable = h.usable; latest = h.latest })
    | inr other ↦ rw other (record {
      config = cfg;
      active = refl;
      usable = load-IsUsable rx fs w.path cfg is;
      latest = weaken cfg (publish cfg sch 0 w.subs) (publish-newest cfg sch 0 w.subs);
    })
  ]

  reload_at-IsSound :
      (w : Watcher) (force : Bool) (seen : Seen) (o : Option FileInfo)
      → IsSound rx w
      → IsSound rx (reload_at rx w force seen o)
  unfolding reload_at
  reload_at-IsSound w force seen none h = h
  reload_at-IsSound w force seen (some fi) h = elim (Bool-cases (same_file w fi && not force)) [
    | inl same ↦ rw same h
    | inr other ↦
        rw other (install-IsSound w fi seen.schedule seen.files (load rx seen.files w.path) refl h)
  ]

  reload-IsSound :
      (w : Watcher) (force : Bool) (seen : Seen)
      → IsSound rx w
      → IsSound rx (reload rx w force seen)
  unfolding reload
  reload-IsSound w force seen h = elim (Bool-cases (is_empty w.path)) [
    | inl same ↦ rw same h
    | inr other ↦ rw other (reload_at-IsSound w force seen seen.info h)
  ]

  step-IsSound : (w : Watcher) (e : Event) → IsSound rx w → IsSound rx (step rx w e)
  unfolding step subscribe current
  step-IsSound w (hangup seen) h = reload-IsSound w true seen h
  step-IsSound w (tick seen) h = reload-IsSound w false seen h
  step-IsSound w subscribed h = record {
    config = h.config;
    active = h.active;
    usable = h.usable;
    latest = All-append (IsLatest h.config) w.subs _ h.latest (inl refl, tt);
  }
  step-IsSound w (took i) h = record {
    config = h.config;
    active = h.active;
    usable = h.usable;
    latest = receive_at-IsLatest h.config i w.subs h.latest;
  }

  steps-IsSound : (w : Watcher) (es : List Event) → IsSound rx w → IsSound rx (run rx w es)
  unfolding run
  steps-IsSound w [] h = h
  steps-IsSound w (e ∷ es) h = steps-IsSound (step rx w e) es (step-IsSound w e h)

  -- A watcher that starts with a configuration that Load accepted has, after any events, a configuration
  -- that Validate accepts, whose figures are within the scanner's bounds and from which the filter and
  -- the namer are built; and each subscriber has that one as its newest or was sent nothing yet.
  pub run-IsSound :
      (fs : Files) (path : Bytes) (c : Config) (stat : Option FileInfo) (es : List Event)
      → load rx fs path ≡ ok c
      → IsSound rx (run rx (new_watcher path (some c) stat) es)
  unfolding new_watcher current
  run-IsSound fs path c stat es h =
      steps-IsSound (new_watcher path (some c) stat) es
        (record { config = c; active = refl; usable = load-IsUsable rx fs path c h; latest = tt })
