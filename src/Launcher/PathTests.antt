-- ===== src/Launcher/PathTests.antt =====
-- Paths and commands of the launcher at concrete inputs.
use mxdx.Prelude.{◌≡◌, refl, List, [], ◌∷◌, some, All}
use mxdx.Prelude.Bytes.{bytes_eq}
use mxdx.Prelude.Chars.{Text, starts_with}
use mxdx.Prelude.Results.{ok}
use mxdx.Launcher.Executor.{
  CapabilitiesConfig, ValidatedCommand, denylist, normalize_path, split_slashes, add_part,
  add_parts, pop, join, reverse_onto, permit_cwd, resolve_cwd, validate_args, validate_command,
}
use mxdx.Launcher.Paths.{NormalPart, normalize_path-NormalPart, normalize_path-normalize_path}
use mxdx.Launcher.Permitted.{Permitted, normalized, validate_command-Permitted}

-- /h/../a
abbrev upward : Text
upward = 47 ∷ 104 ∷ 47 ∷ 46 ∷ 46 ∷ 47 ∷ 97 ∷ []

to_a : normalize_path upward ≡ 47 ∷ 97 ∷ []
unfolding normalize_path starts_with split_slashes add_parts add_part pop join reverse_onto bytes_eq
to_a = refl

normalize_path-normalize_path_example :
    normalize_path (normalize_path upward) ≡ normalize_path upward
unfolding starts_with
normalize_path-normalize_path_example = normalize_path-normalize_path upward refl

-- /a
abbrev only_a : CapabilitiesConfig
only_a = record {
  mode = denylist;
  allowed_commands = "ls" ∷ [];
  allowed_cwd_prefixes = (47 ∷ 97 ∷ []) ∷ [];
  max_sessions = 5;
}

abbrev listing : ValidatedCommand
listing = record { cmd = "ls"; args = []; cwd = some (47 ∷ 97 ∷ 98 ∷ []) }

-- With /a as the only prefix, /ab is permitted too, and a denylist denies nothing.
permits_neighbour : validate_command only_a "ls" [] (some (47 ∷ 97 ∷ 98 ∷ [])) ≡ ok listing
unfolding validate_command resolve_cwd permit_cwd validate_args normalize_path starts_with
    split_slashes add_parts add_part pop join reverse_onto bytes_eq
permits_neighbour = refl

validate_command-Permitted_example :
    (listing ≡ record { cmd = "ls"; args = []; cwd = normalized (some (47 ∷ 97 ∷ 98 ∷ [])) })
    × Permitted only_a listing
validate_command-Permitted_example =
    validate_command-Permitted only_a "ls" [] (some (47 ∷ 97 ∷ 98 ∷ [])) listing permits_neighbour

normalize_path-NormalPart_example :
    (ps : List Text) × (normalize_path upward ≡ 47 ∷ join ps) × All NormalPart ps
unfolding starts_with
normalize_path-NormalPart_example = normalize_path-NormalPart upward refl
