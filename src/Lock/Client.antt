-- ===== src/Lock/Client.antt =====
-- apps/betterhook/src/lock/client.rs and lock/flock.rs: the key of a job's lock and its lockfile.
use Prim.Native.Char.{Char, code}
use text.Mathlib.Text.{◌==◌ as str_eq}
use betterhook.Base.{ℕ, String, List, [], ◌∷◌, Bool, not, ◌&&◌, ◌||◌, ltb, ◌==◌, if◌then◌else◌}
use betterhook.Base.Search.{then_text}
use betterhook.Base.Paths.{join_path}
use betterhook.Config.Schema.{FilePath, ToolPathScope, IsolateSpec}

abbrev pub ExtraEnv : Type 0
ExtraEnv = List (String × String)

-- `u32::try_from(slots).unwrap_or(1)`
unfoldable pub slots_or_one : ℕ → ℕ
slots_or_one slots = if ltb slots 4294967296 then slots else 1

abbrev tool_path_key : String → String → String
tool_path_key tool path = then_text "tool-path:" (then_text tool (then_text ":" path))

unfoldable pub per_worktree_env : String → FilePath → ExtraEnv
per_worktree_env tool worktree =
    if str_eq tool "cargo" then ("CARGO_TARGET_DIR", join_path worktree "target") ∷ [] else []

unfoldable pub key_for_spec : IsolateSpec → FilePath → String × ℕ × ExtraEnv
key_for_spec (IsolateSpec.tool name) worktree = (then_text "tool:" name, 1, [])
key_for_spec (IsolateSpec.sharded name slots) worktree =
    (then_text "sharded:" name, slots_or_one slots, [])
key_for_spec (IsolateSpec.tool_path tool ToolPathScope.per_worktree) worktree =
    (tool_path_key tool worktree, 1, per_worktree_env tool worktree)
key_for_spec (IsolateSpec.tool_path tool (ToolPathScope.path p)) worktree =
    (tool_path_key tool p, 1, [])

abbrev in_range : ℕ → ℕ → ℕ → Bool
in_range lo hi n = not (ltb n lo) && not (ltb hi n)

abbrev stays : ℕ → Bool
stays c =
    in_range b'a' b'z' c
    || in_range b'A' b'Z' c
    || in_range b'0' b'9' c
    || c == b'_'
    || c == b'-'
    || c == b'.'

unfoldable pub sanitize : String → String
sanitize String.[] = ""
sanitize (String.◌∷◌ c cs) =
    let rest = sanitize cs in
    if stays (code c) then String.◌∷◌ c rest else String.◌∷◌ (Char.char b'_' tt) rest

unfoldable pub lock_dir : FilePath → FilePath
lock_dir common_dir = join_path (join_path common_dir "betterhook") "locks"

-- The file that `FileLock::acquire` locks.
unfoldable pub lock_path : FilePath → String → FilePath
lock_path common_dir key = join_path (lock_dir common_dir) (then_text (sanitize key) ".lock")

-- What `acquire_job_lock` locks, and the environment that its guard carries.
unfoldable pub job_lock : FilePath → IsolateSpec → FilePath → FilePath × ExtraEnv
job_lock common_dir spec worktree =
    let (key, permits, extra_env) = key_for_spec spec worktree in
    (lock_path common_dir key, extra_env)
