-- ===== src/Tests/Configs.antt =====
-- The theorems of the configuration at the shipped defaults, and at a watcher that is told of a change.
use cpu_process_exporter.Tests.{prefixes}
use cpu_process_exporter.Base.{
  ◌≡◌, refl, true, false, List, [], ◌∷◌, none, some, Bytes, codes, All, Distinct, keys,
}
use cpu_process_exporter.Base.Int.{pos}
use cpu_process_exporter.Config.{Config, NamingRule}
use cpu_process_exporter.Config.Defaults.{default, default_ignore_comm_regex, default_naming_rules}
use cpu_process_exporter.Config.Load.{Files, directory, ok, load, normalise, compiles}
use cpu_process_exporter.Config.Accepted.{IsAccepted}
use cpu_process_exporter.Config.Shipped.{CompilesDefaults, default-load}
use cpu_process_exporter.Config.Usable.{IsUsable, load-IsUsable}
use cpu_process_exporter.Config.Watcher.{
  FileInfo, Watcher, Schedule, Seen, hangup, tick, subscribed, took, new_watcher, step, run,
  current,
}
use cpu_process_exporter.Config.Delivery.{IsSound, run-IsSound}
use cpu_process_exporter.Config.Reload.{hangup-current}
use cpu_process_exporter.Api.Routes.{routes}
use cpu_process_exporter.Api.Clash.{fixed, with_path, IsAccepted-clash}

-- Every path is a directory, and a document sets nothing.
abbrev files : Files
files = record {
  read_file = λ path. some [];
  stat_path = λ path. directory;
  decode_json = λ text c. some c;
  decode_yaml = λ text c. some c;
}

abbrev path : Bytes
path = codes "c.yaml"

each_good : (ps : List Bytes) → All (λ p. compiles prefixes p ≡ true) ps
each_good [] = tt
each_good (p ∷ ps) = (refl, each_good ps)

each_rule_good : (rs : List NamingRule) → All (λ r. compiles prefixes r.regex ≡ true) rs
each_rule_good [] = tt
each_rule_good (r ∷ rs) = (refl, each_rule_good rs)

patterns_compile : CompilesDefaults prefixes
patterns_compile = record {
  comm_regex = each_good default_ignore_comm_regex;
  rule_regex = each_rule_good default_naming_rules;
}

abbrev shipped : Config
shipped = normalise default

loads : load prefixes files path ≡ ok shipped
loads = default-load prefixes files path [] refl refl refl refl patterns_compile

load-IsUsable_example : IsUsable prefixes shipped
load-IsUsable_example = load-IsUsable prefixes files path shipped loads

-- The file is replaced by one that turns smaps off.
abbrev quieter : Files
quieter = record files {
  decode_yaml = λ text c. some (record c { scan = record (c.scan) { read_smaps = false } });
}

abbrev eager : Schedule
eager = record { before_send = false; before_drain = true; before_resend = false }

abbrev info : FileInfo
info = record { mod_time = 5; size = pos 9 }

abbrev edited : Seen
edited = record { info = some info; files = quieter; schedule = λ i. eager }

abbrev unedited : Seen
unedited = record { info = some info; files = files; schedule = λ i. eager }

run-IsSound_example : IsSound prefixes (
    run prefixes
      (new_watcher path (some shipped) none)
      (subscribed ∷ hangup edited ∷ tick unedited ∷ hangup unedited ∷ took 0 ∷ []))
run-IsSound_example =
    run-IsSound prefixes files path shipped none
      (subscribed ∷ hangup edited ∷ tick unedited ∷ hangup unedited ∷ took 0 ∷ []) loads

abbrev started : Watcher
started = new_watcher path none none

hangup-current_example :
    (current (step prefixes started (hangup unedited)) ≡ some shipped)
    × (step prefixes (step prefixes started (hangup unedited)) (tick edited)
        ≡ step prefixes started (hangup unedited))
unfolding new_watcher
hangup-current_example =
    hangup-current prefixes started info unedited edited shipped refl refl loads refl

IsAccepted-clash_example :
    All
      (λ p.
        IsAccepted prefixes (with_path p shipped)
        × (¬ Distinct (keys (routes (with_path p shipped).server))))
      fixed
IsAccepted-clash_example = IsAccepted-clash prefixes files path shipped loads
