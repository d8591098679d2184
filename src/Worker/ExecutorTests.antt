-- ===== src/Worker/ExecutorTests.antt =====
-- The checks of commands at concrete inputs.
use mxdx.Prelude.{◌≡◌, refl, true, [], ◌∷◌, some}
use mxdx.Prelude.Bytes.{bytes_eq}
use mxdx.Prelude.Chars.{Text, starts_with, contains_char, contains_text}
use mxdx.Prelude.Results.{ok, err}
use mxdx.Worker.Executor.{
  Filesystem, ValidatedCommand, cwd_not_allowed, validate_bin, validate_args, validate_args_from,
  validate_cwd, is_valid_env_key, validate_env, validate_allowlist, trim_slashes, is_under,
  validate_cwd_allowlist, validate_cwd_gate, validate_some_env, validate_some_cwd, validate_command,
}
use mxdx.Worker.Safe.{Safe, validate_command-Safe}

-- A file system in which every path exists.
abbrev every_path : Filesystem
every_path = record { exists = λ p. true; is_dir = λ p. true }

-- `ls -l` in /tmp/a with A=b.
abbrev ls : Text
ls = 108 ∷ 115 ∷ []

abbrev tmp : Text
tmp = 47 ∷ 116 ∷ 109 ∷ 112 ∷ []

abbrev tmp_a : Text
tmp_a = 47 ∷ 116 ∷ 109 ∷ 112 ∷ 47 ∷ 97 ∷ []

abbrev listing : ValidatedCommand
listing = record {
  bin = ls;
  args = (45 ∷ 108 ∷ []) ∷ [];
  env = (65 ∷ [], 98 ∷ []) ∷ [];
  cwd = some tmp_a;
}

accepts_listing :
    validate_command every_path ls
      ((45 ∷ 108 ∷ []) ∷ [])
      (some ((65 ∷ [], 98 ∷ []) ∷ []))
      (some tmp_a)
      (ls ∷ [])
      (tmp ∷ [])
    ≡ ok listing
unfolding validate_command validate_allowlist bytes_eq validate_cwd_gate validate_cwd_allowlist
    is_under trim_slashes starts_with validate_bin contains_char validate_args validate_args_from
    validate_some_env validate_env is_valid_env_key validate_some_cwd validate_cwd contains_text
accepts_listing = refl

-- A directory whose name only begins like an allowed one is refused.
refuses_neighbour :
    validate_cwd_allowlist (47 ∷ 116 ∷ 109 ∷ 112 ∷ 97 ∷ []) (tmp ∷ [])
    ≡ err (cwd_not_allowed (47 ∷ 116 ∷ 109 ∷ 112 ∷ 97 ∷ []) (tmp ∷ []))
unfolding validate_cwd_allowlist is_under bytes_eq starts_with trim_slashes
refuses_neighbour = refl

validate_command-Safe_example : (listing ≡ listing) × Safe every_path (ls ∷ []) (tmp ∷ []) listing
validate_command-Safe_example =
    validate_command-Safe every_path ls ((45 ∷ 108 ∷ []) ∷ []) (some ((65 ∷ [], 98 ∷ []) ∷ []))
      (some tmp_a) (ls ∷ []) (tmp ∷ []) listing accepts_listing
