-- ===== src/Procfs/Users.antt =====
-- internal/procfs/system.go: the cache of user names. `lookup_id` is os/user's LookupId: the name, or
-- none where it fails.
use cpu_process_exporter.Base.{
  ℕ, List, [], ◌∷◌, ◌++◌, Option, none, some, Bytes, codes, is_empty, has_prefix, if◌then◌else◌,
  lookup, insert, nat_eq, ◌||◌,
}
use cpu_process_exporter.Procfs.Number.{format_uint, parse_uint, max_u32}
use cpu_process_exporter.Procfs.Cmdline.{split}

abbrev pub UserCache : Type 0
UserCache = List (ℕ × Bytes)

unfoldable pub uid_text : ℕ → Bytes
uid_text uid = codes "uid:" ++ format_uint uid

abbrev resolved : ℕ → Option Bytes → Bytes
resolved uid none = uid_text uid
resolved uid (some name) = if is_empty name then uid_text uid else name

abbrev cached : (Bytes → Option Bytes) → UserCache → ℕ → Option Bytes → Bytes × UserCache
cached lookup_id c uid (some name) = (name, c)
cached lookup_id c uid none =
    let name = resolved uid (lookup_id (format_uint uid)) in (name, insert uid name c)

unfoldable pub user_name : (Bytes → Option Bytes) → UserCache → ℕ → Bytes × UserCache
user_name lookup_id c uid = cached lookup_id c uid (lookup uid c)

abbrev passwd_entry : UserCache → List Bytes → UserCache
passwd_entry m (name ∷ _ ∷ field ∷ _) =
    let (uid, fine) = parse_uint max_u32 field in if fine then insert uid name m else m
passwd_entry m _ = m

unfoldable pub passwd_line : UserCache → Bytes → UserCache
passwd_line m line =
    if is_empty line || has_prefix line (codes "#") then m else passwd_entry m (split b':' line)

unfoldable pub passwd_loop : UserCache → List Bytes → UserCache
passwd_loop m [] = m
passwd_loop m (line ∷ rest) = passwd_loop (passwd_line m line) rest

-- `Refresh` on the lines of /etc/passwd, none if it cannot be opened. A scan error is not looked at.
unfoldable pub refresh : Option (List Bytes) → UserCache
unfolding passwd_loop passwd_line
refresh none = []
refresh (some lines) = passwd_loop [] lines

unfoldable pub new_user_cache : Option (List Bytes) → UserCache
unfolding refresh
new_user_cache lines = refresh lines
