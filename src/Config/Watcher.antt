-- ===== src/Config/Watcher.antt =====
-- internal/config/watcher.go. Run is one goroutine, so reloads follow one another; the mutexes make
-- each access to the fields one step. A subscriber may receive at any time: between the selects of
-- publish, where a schedule says whether it does, and between two events of Run. What it has received
-- is kept with it, the newest first. A time is a number.
use cpu_process_exporter.Base.{
  ℕ, zero, suc, Bool, true, false, not, ◌&&◌, List, [], ◌∷◌, ◌++◌, Option, none, some, Bytes,
  is_empty, is_some, if◌then◌else◌, ◌==◌, int_beq,
}
use cpu_process_exporter.Base.Int.{ℤ, pos}
use cpu_process_exporter.Config.{Config}
use cpu_process_exporter.Config.Equal.{equal}
use cpu_process_exporter.Config.Load.{Files, Loaded, ok, err, load}
use cpu_process_exporter.Regexp.{Regexp}

-- What os.Stat says of the file.
pub record FileInfo : Type 0 where
  pub mod_time : ℕ
  pub size : ℤ

-- A channel of capacity 1, and what has been received from it.
pub record Subscriber : Type 0 where
  pub buffered : Option Config
  pub received : List Config

pub record Watcher : Type 0 where
  pub path : Bytes
  pub cur : Option Config
  pub mtime : ℕ
  pub size : ℤ
  pub subs : List Subscriber

abbrev pub no_info : FileInfo
no_info = record { mod_time = 0; size = pos 0 }

abbrev pub info_or : Option FileInfo → FileInfo → FileInfo
info_or none d = d
info_or (some fi) d = fi

unfoldable pub new_watcher : Bytes → Option Config → Option FileInfo → Watcher
new_watcher path initial stat = record {
  path = path;
  cur = initial;
  mtime = (info_or stat no_info).mod_time;
  size = (info_or stat no_info).size;
  subs = [];
}

unfoldable pub current : Watcher → Option Config
current w = w.cur

unfoldable pub subscribe : Watcher → Watcher
subscribe w = record w { subs = w.subs ++ (record { buffered = none; received = [] } ∷ []) }

-- The subscriber receives; without a value it would wait, and nothing changes.
abbrev pub take_value : Subscriber → Option Config → Subscriber
take_value s none = s
take_value s (some c) = record { buffered = none; received = c ∷ s.received }

unfoldable pub receive : Subscriber → Subscriber
receive s = take_value s s.buffered

abbrev pub receive_if : Bool → Subscriber → Subscriber
receive_if true s = receive s
receive_if false s = s

-- `select { case ch <- cfg: default: }` where the channel has room or not, and
-- `select { case <-ch: default: }`.
abbrev pub send : Config → Subscriber → Subscriber
send cfg s = if is_some s.buffered then s else record s { buffered = some cfg }

abbrev pub drain : Subscriber → Subscriber
drain s = record s { buffered = none }

-- Whether the subscriber receives before each of the three selects.
pub record Schedule : Type 0 where
  pub before_send : Bool
  pub before_drain : Bool
  pub before_resend : Bool

-- The inner selects of publish, where the first one found the channel full.
abbrev pub resend : Config → Schedule → Subscriber → Subscriber
resend cfg sch s = send cfg (receive_if sch.before_resend (drain (receive_if sch.before_drain s)))

-- What publish does to one channel.
unfoldable pub offer : Config → Schedule → Subscriber → Subscriber
unfolding receive
offer cfg sch s =
    let s' = receive_if sch.before_send s in
    if is_some s'.buffered then resend cfg sch s' else send cfg s'

unfoldable pub publish : Config → (ℕ → Schedule) → ℕ → List Subscriber → List Subscriber
unfolding offer
publish cfg sch i [] = []
publish cfg sch i (s ∷ subs) = offer cfg (sch i) s ∷ publish cfg sch (suc i) subs

abbrev pub seen_at : FileInfo → Watcher → Watcher
seen_at fi w = record w { mtime = fi.mod_time; size = fi.size }

-- The end of reload, behind Load.
unfoldable pub install : Watcher → FileInfo → (ℕ → Schedule) → Loaded → Watcher
unfolding publish
install w fi sch (err e) = w
install w fi sch (ok cfg) =
    if equal w.cur (some cfg)
    then seen_at fi w
    else record (seen_at fi w) { cur = some cfg; subs = publish cfg sch 0 w.subs }

abbrev pub same_file : Watcher → FileInfo → Bool
same_file w fi = fi.mod_time == w.mtime && int_beq fi.size w.size

-- What a reload meets: the answer of os.Stat, the files, and the receivers.
pub record Seen : Type 0 where
  pub info : Option FileInfo
  pub files : Files
  pub schedule : ℕ → Schedule

module _ {R M : Type 0} (rx : Regexp R M) where
  unfoldable pub reload_at : Watcher → Bool → Seen → Option FileInfo → Watcher
  unfolding install
  reload_at w force seen none = w
  reload_at w force seen (some fi) =
      if same_file w fi && not force
      then w
      else install w fi seen.schedule (load rx seen.files w.path)

  unfoldable pub reload : Watcher → Bool → Seen → Watcher
  unfolding reload_at
  reload w force seen = if is_empty w.path then w else reload_at w force seen seen.info

-- What happens around Run: the signal, the tick, and what subscribers do.
pub data Event : Type 0 where
  hangup : Seen → Event
  tick : Seen → Event
  subscribed : Event
  took : ℕ → Event

abbrev pub receive_at : ℕ → List Subscriber → List Subscriber
receive_at i [] = []
receive_at zero (s ∷ subs) = receive s ∷ subs
receive_at (suc i) (s ∷ subs) = s ∷ receive_at i subs

module _ {R M : Type 0} (rx : Regexp R M) where
  unfoldable pub step : Watcher → Event → Watcher
  unfolding reload subscribe receive
  step w (hangup seen) = reload rx w true seen
  step w (tick seen) = reload rx w false seen
  step w subscribed = subscribe w
  step w (took i) = record w { subs = receive_at i w.subs }

  -- The loop of Run, up to the end of its context.
  unfoldable pub run : Watcher → List Event → Watcher
  unfolding step
  run w [] = w
  run w (e ∷ es) = run (step w e) es
