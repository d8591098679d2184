-- ===== src/Worker/Executor.antt =====
-- executor.rs of the worker: what is checked of a command before it runs.
use mxdx.Prelude.{
  ℕ, suc, Bool, true, false, not, ◌&&◌, ◌||◌, List, [], ◌∷◌, ◌++◌, Option, some, none,
  if◌then◌else◌, leb, ◌==◌, any, all,
}
use mxdx.Prelude.Bytes.{bytes_eq}
use mxdx.Prelude.Chars.{Text, starts_with, contains_char, contains_text}
use mxdx.Prelude.Results.{Result, ok, err}

abbrev pub Env : Type 0
Env = List (Text × Text)

pub record ValidatedCommand : Type 0 where
  pub bin : Text
  pub args : List Text
  pub env : Env
  pub cwd : Option Text

-- One constructor for each `bail!`, with what its message shows.
pub data Rejection : Type 0 where
  empty_bin : Rejection
  bin_metacharacters : Text → Rejection
  bin_spaces : Text → Rejection
  null_byte : ℕ → Rejection
  relative_cwd : Text → Rejection
  cwd_traversal : Text → Rejection
  no_directory : Text → Rejection
  invalid_env_key : Text → Rejection
  all_commands_denied : Rejection
  command_not_allowed : Text → List Text → Rejection
  all_directories_denied : Rejection
  cwd_not_allowed : Text → List Text → Rejection
  cwd_required : Rejection

abbrev pub Checked : Type 0 → Type 0
Checked A = Result {0, 0} Rejection A

-- ; | & $ ` ( ) { } < > and the ends of lines
abbrev pub shell_metacharacters : List ℕ
shell_metacharacters = 59 ∷ 124 ∷ 38 ∷ 36 ∷ 96 ∷ 40 ∷ 41 ∷ 123 ∷ 125 ∷ 60 ∷ 62 ∷ 10 ∷ 13 ∷ []

-- What the file system answers: `Path::exists` and `Path::is_dir`.
pub record Filesystem : Type 0 where
  pub exists : Text → Bool
  pub is_dir : Text → Bool

-- `?`
abbrev pub and_then : {A : Type 0} → Checked Unit → Checked A → Checked A
and_then (ok u) rest = rest
and_then (err e) rest = err e

abbrev pub has_no_chars : Text → Bool
has_no_chars [] = true
has_no_chars (c ∷ cs) = false

unfoldable pub validate_bin : Filesystem → Text → Checked Unit
validate_bin fs bin =
    if has_no_chars bin
    then err empty_bin
    else if any (λ c. contains_char c bin) shell_metacharacters
    then err (bin_metacharacters bin)
    else if contains_char 32 bin && not (fs.exists bin)
    then err (bin_spaces bin)
    else ok tt

unfoldable pub validate_args_from : ℕ → List Text → Checked Unit
validate_args_from i [] = ok tt
validate_args_from i (arg ∷ args) =
    let rest = validate_args_from (suc i) args in
    if contains_char 0 arg then err (null_byte i) else rest

unfoldable pub validate_args : List Text → Checked Unit
validate_args args = validate_args_from 0 args

unfoldable pub validate_cwd : Filesystem → Text → Checked Unit
validate_cwd fs cwd =
    if not (starts_with cwd (47 ∷ []))
    then err (relative_cwd cwd)
    else if contains_text cwd (46 ∷ 46 ∷ [])
    then err (cwd_traversal cwd)
    else if not (fs.is_dir cwd)
    then err (no_directory cwd)
    else ok tt

abbrev pub is_ascii_uppercase : ℕ → Bool
is_ascii_uppercase c = leb 65 c && leb c 90

abbrev pub is_ascii_digit : ℕ → Bool
is_ascii_digit c = leb 48 c && leb c 57

abbrev pub is_key_char : ℕ → Bool
is_key_char c = is_ascii_uppercase c || is_ascii_digit c || c == 95

unfoldable pub is_valid_env_key : Text → Bool
is_valid_env_key [] = false
is_valid_env_key (c ∷ cs) =
    if not (is_ascii_uppercase c) && not (c == 95) then false else all is_key_char cs

unfoldable pub validate_env : Env → Checked Unit
validate_env [] = ok tt
validate_env ((key, value) ∷ env) =
    let rest = validate_env env in
    if not (is_valid_env_key key) then err (invalid_env_key key) else rest

abbrev pub none_allowed : List Text → Bool
none_allowed [] = true
none_allowed (a ∷ rest) = false

unfoldable pub validate_allowlist : Text → List Text → Checked Unit
validate_allowlist bin allowed =
    if none_allowed allowed
    then err all_commands_denied
    else if not (any (λ a. bytes_eq a bin) allowed)
    then err (command_not_allowed bin allowed)
    else ok tt

-- `trim_end_matches('/')`
unfoldable pub trim_slashes : Text → Text
trim_slashes [] = []
trim_slashes (c ∷ cs) = elim (trim_slashes cs) [
  | [] ↦ if c == 47 then [] else c ∷ []
  | d ∷ ds ↦ c ∷ d ∷ ds
]

unfoldable pub is_under : Text → Text → Bool
is_under cwd prefix = bytes_eq cwd prefix || starts_with cwd (trim_slashes prefix ++ 47 ∷ [])

unfoldable pub validate_cwd_allowlist : Text → List Text → Checked Unit
validate_cwd_allowlist cwd allowed =
    if none_allowed allowed
    then err all_directories_denied
    else if not (any (is_under cwd) allowed)
    then err (cwd_not_allowed cwd allowed)
    else ok tt

unfoldable pub validate_cwd_gate : Option Text → List Text → Checked Unit
validate_cwd_gate none allowed = if not (none_allowed allowed) then err cwd_required else ok tt
validate_cwd_gate (some cwd) allowed = validate_cwd_allowlist cwd allowed

unfoldable pub validate_some_env : Option Env → Checked Unit
validate_some_env none = ok tt
validate_some_env (some env) = validate_env env

unfoldable pub validate_some_cwd : Filesystem → Option Text → Checked Unit
validate_some_cwd fs none = ok tt
validate_some_cwd fs (some cwd) = validate_cwd fs cwd

abbrev pub env_or_default : Option Env → Env
env_or_default none = []
env_or_default (some env) = env

unfoldable pub validate_command :
    Filesystem
    → Text
    → List Text
    → Option Env
    → Option Text
    → List Text
    → List Text
    → Checked ValidatedCommand
validate_command fs bin args env cwd allowed_commands allowed_cwd =
    and_then (validate_allowlist bin allowed_commands) (
      and_then (validate_cwd_gate cwd allowed_cwd) (
        and_then (validate_bin fs bin) (
          and_then (validate_args args) (
            and_then (validate_some_env env) (
              and_then (validate_some_cwd fs cwd)
                (ok (record { bin = bin; args = args; env = env_or_default env; cwd = cwd })))))))
