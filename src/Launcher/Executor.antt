-- ===== src/Launcher/Executor.antt =====
-- executor.rs of the launcher: the checks of a command, and the normal form of its directory.
use mxdx.Prelude.{
  ℕ, Bool, true, false, not, ◌&&◌, ◌||◌, List, [], ◌∷◌, ◌++◌, Option, some, none, if◌then◌else◌,
  ◌==◌, any, String, str_eq,
}
use mxdx.Prelude.Bytes.{bytes_eq}
use mxdx.Prelude.Chars.{Text, starts_with}
use mxdx.Prelude.Texts.{contains}
use mxdx.Prelude.Results.{Result, ok, err}

pub data CapabilityMode : Type 0 where
  allowlist : CapabilityMode
  denylist : CapabilityMode

pub record CapabilitiesConfig : Type 0 where
  pub mode : CapabilityMode
  pub allowed_commands : List String
  pub allowed_cwd_prefixes : List Text
  pub max_sessions : ℕ

-- The directory is a text of characters; the command and its arguments are only compared.
pub record ValidatedCommand : Type 0 where
  pub cmd : String
  pub args : List String
  pub cwd : Option Text

-- One constructor for each message.
pub data ExecutorError : Type 0 where
  command_not_permitted : String → ExecutorError
  cwd_not_permitted : Text → ExecutorError
  git_config : String → ExecutorError
  git_submodule_foreach : ExecutorError
  docker_compose_file : ExecutorError
  env_command : ExecutorError

-- The first part of a split, with one more character.
abbrev pub extend : ℕ → List Text → List Text
extend c [] = (c ∷ []) ∷ []
extend c (p ∷ ps) = (c ∷ p) ∷ ps

-- `split('/')`
unfoldable pub split_slashes : Text → List Text
split_slashes [] = [] ∷ []
split_slashes (c ∷ cs) =
    let parts = split_slashes cs in if c == 47 then [] ∷ parts else extend c parts

abbrev pub is_dot : Text → Bool
is_dot part = bytes_eq part (46 ∷ [])

abbrev pub is_dot_dot : Text → Bool
is_dot_dot part = bytes_eq part (46 ∷ 46 ∷ [])

abbrev pub is_blank : Text → Bool
is_blank [] = true
is_blank (c ∷ cs) = false

-- The components with the last one first: `push` and `pop` work on the head.
unfoldable pub pop : List Text → List Text
pop [] = []
pop (c ∷ cs) = cs

-- `components.last().map_or(true, |c| *c == "..")`
abbrev pub last_is_dot_dot : List Text → Bool
last_is_dot_dot [] = true
last_is_dot_dot (c ∷ cs) = is_dot_dot c

unfoldable pub add_part : Bool → Text → List Text → List Text
add_part is_absolute part components =
    if is_blank part || is_dot part
    then components
    else if is_dot_dot part
    then (if is_absolute
        then pop components
        else if last_is_dot_dot components
        then part ∷ components
        else pop components)
    else part ∷ components

unfoldable pub add_parts : Bool → List Text → List Text → List Text
add_parts is_absolute [] components = components
add_parts is_absolute (p ∷ ps) components =
    add_parts is_absolute ps (add_part is_absolute p components)

-- `components.join("/")`, of the components in their order
unfoldable pub join : List Text → Text
join [] = []
join (p ∷ []) = p
join (p ∷ q ∷ ps) = p ++ 47 ∷ join (q ∷ ps)

unfoldable pub reverse_onto : List Text → List Text → List Text
reverse_onto [] ys = ys
reverse_onto (x ∷ xs) ys = reverse_onto xs (x ∷ ys)

unfoldable pub normalize_path : Text → Text
normalize_path path =
    let is_absolute = starts_with path (47 ∷ []) in
    let joined = join (reverse_onto (add_parts is_absolute (split_slashes path) []) []) in
    if is_absolute then 47 ∷ joined else joined

abbrev pub Checked : Type 0 → Type 0
Checked A = Result {0, 0} ExecutorError A

abbrev pub next_is : String → List String → Bool
next_is name [] = false
next_is name (a ∷ args) = str_eq a name

unfoldable pub check_git : List String → Checked Unit
check_git [] = ok tt
check_git (a ∷ args) =
    let rest = check_git args in
    if str_eq a "-c" || str_eq a "--config"
    then err (git_config a)
    else if str_eq a "submodule" && next_is "foreach" args
    then err git_submodule_foreach
    else rest

unfoldable pub check_docker : List String → Checked Unit
check_docker [] = ok tt
check_docker (a ∷ args) =
    let rest = check_docker args in
    if str_eq a "compose" && any (λ x. str_eq x "-f" || str_eq x "--file") args
    then err docker_compose_file
    else rest

unfoldable pub validate_args : String → List String → Checked Unit
validate_args cmd args =
    if str_eq cmd "git"
    then check_git args
    else if str_eq cmd "docker"
    then check_docker args
    else if str_eq cmd "env"
    then err env_command
    else ok tt

abbrev pub is_allowlist : CapabilityMode → Bool
is_allowlist allowlist = true
is_allowlist denylist = false

unfoldable pub permit_cwd : CapabilitiesConfig → Text → Checked (Option Text)
permit_cwd config normalized =
    if any (λ prefix. starts_with normalized prefix) config.allowed_cwd_prefixes
    then ok (some normalized)
    else err (cwd_not_permitted normalized)

unfoldable pub resolve_cwd : CapabilitiesConfig → Option Text → Checked (Option Text)
resolve_cwd config none = ok none
resolve_cwd config (some cwd_str) = permit_cwd config (normalize_path cwd_str)

abbrev pub and_then : {A B : Type 0} → Checked A → (A → Checked B) → Checked B
and_then (ok a) f = f a
and_then (err e) f = err e

unfoldable pub validate_command :
    CapabilitiesConfig → String → List String → Option Text → Checked ValidatedCommand
validate_command config cmd args cwd =
    if is_allowlist config.mode && not (contains config.allowed_commands cmd)
    then err (command_not_permitted cmd)
    else and_then (resolve_cwd config cwd) (λ resolved_cwd.
      and_then (validate_args cmd args)
        (λ u. ok (record { cmd = cmd; args = args; cwd = resolved_cwd })))
