-- ===== src/Launcher/Permitted.antt =====
-- executor.rs of the launcher: what is known of a command that was accepted.
use mxdx.Prelude.{
  ◌≡◌, ◌≢◌, refl, sym, ap, subst, ◌∙◌, inl, inr, true, not, ◌&&◌, ◌||◌, List, [], ◌∷◌, ◌++◌, Option,
  some, none, All, any, arith, Bool-cases, String, str_eq, str_eq_iff,
}
use mxdx.Prelude.Chars.{Text, starts_with, starts_with-rest}
use mxdx.Prelude.Texts.{contains}
use mxdx.Prelude.Results.{ok, err, guard_ok, choice_ok, ok-injective}
use mxdx.Launcher.Executor.{
  CapabilitiesConfig, ValidatedCommand, Checked, is_allowlist, normalize_path, check_git,
  validate_args, permit_cwd, resolve_cwd, and_then, validate_command, next_is, git_config,
  git_submodule_foreach, env_command, command_not_permitted,
}

abbrev pub normalized : Option Text → Option Text
normalized none = none
normalized (some cwd) = some (normalize_path cwd)

-- The directory is in its normal form, and goes on after one of the prefixes.
abbrev pub InPrefix : List Text → Option Text → Type 0
InPrefix prefixes none = Unit
InPrefix prefixes (some cwd) =
    (xs : List Text) × (prefix : Text) × (ys : List Text) × (rest : Text) × (prefixes
      ≡ xs ++ prefix ∷ ys)
    × (cwd ≡ prefix ++ rest)

pub record Permitted (config : CapabilitiesConfig) (v : ValidatedCommand) : Type 0 where
  pub known : is_allowlist config.mode ≡ true → contains config.allowed_commands v.cmd ≡ true
  pub directory : InPrefix config.allowed_cwd_prefixes v.cwd
  pub no_env : v.cmd ≢ "env"
  pub no_git_config : v.cmd ≡ "git" → All (λ a. (a ≢ "-c") × (a ≢ "--config")) v.args

one_prefix :
    (cwd : Text) (prefixes : List Text)
    → any (λ prefix. starts_with cwd prefix) prefixes ≡ true
    → InPrefix prefixes (some cwd)
one_prefix cwd [] h = cc
one_prefix cwd (p ∷ ps) h = elim (Bool-cases (starts_with cwd p)) [
  | inl y ↦ let (rest, q) = starts_with-rest cwd p y in ([], p, ps, rest, refl, q)
  | inr n ↦
      let (xs, prefix, ys, rest, q, r) = one_prefix cwd ps (ground arith) in
      (p ∷ xs, prefix, ys, rest, ap (λ l. p ∷ l) q, r)
]

permit_cwd-InPrefix :
    (config : CapabilitiesConfig) (cwd : Text) (r : Option Text)
    → permit_cwd config cwd ≡ ok r
    → (r ≡ some cwd) × InPrefix config.allowed_cwd_prefixes (some cwd)
unfolding permit_cwd
permit_cwd-InPrefix config cwd r h =
    let (y, q) = choice_ok _ (some cwd) _ r h in
    (sym q, one_prefix cwd config.allowed_cwd_prefixes y)

resolve_cwd-InPrefix :
    (config : CapabilitiesConfig) (cwd r : Option Text)
    → resolve_cwd config cwd ≡ ok r
    → (r ≡ normalized cwd) × InPrefix config.allowed_cwd_prefixes (normalized cwd)
unfolding resolve_cwd
resolve_cwd-InPrefix config none r h = (sym (ok-injective none r h), tt)
resolve_cwd-InPrefix config (some cwd) r h = permit_cwd-InPrefix config (normalize_path cwd) r h

git_args :
    (args : List String) → check_git args ≡ ok tt → All (λ a. (a ≢ "-c") × (a ≢ "--config")) args
unfolding check_git
git_args [] h = tt
git_args (a ∷ args) h =
    let (n, h1) = guard_ok (str_eq a "-c" || str_eq a "--config") (git_config a) _ tt h in
    let (m, h2) =
      guard_ok (str_eq a "submodule" && next_is "foreach" args) git_submodule_foreach
        (check_git args) tt h1 in
    (
      (ground (arith, n, str_eq_iff a "-c"), ground (arith, n, str_eq_iff a "--config")),
      git_args args h2,
    )

not_err : ¬ (◌≡◌ {A = Checked Unit} (err env_command) (ok tt))
not_err h = cc

no_env_args : (cmd : String) (args : List String) → validate_args cmd args ≡ ok tt → cmd ≢ "env"
unfolding validate_args
no_env_args cmd args h = λ q. not_err (subst (λ c. validate_args c args ≡ ok tt) q h)

git_only :
    (cmd : String) (args : List String)
    → validate_args cmd args ≡ ok tt
    → cmd ≡ "git"
    → check_git args ≡ ok tt
unfolding validate_args
git_only cmd args h q = subst (λ c. validate_args c args ≡ ok tt) q h

and_then_ok :
    {A B : Type 0} (r : Checked A) (f : A → Checked B) (b : B)
    → and_then r f ≡ ok b
    → (a : A) × (r ≡ ok a) × (f a ≡ ok b)
and_then_ok (ok a) f b h = (a, refl, h)
and_then_ok (err e) f b h = cc

-- A command that the launcher accepts is the one that was asked for with its directory in normal
-- form, it is in the list of the commands if the mode is an allowlist, it is not env, as git it
-- has no argument -c or --config, and its directory begins with one of the prefixes.
pub validate_command-Permitted :
    (config : CapabilitiesConfig) (cmd : String) (args : List String) (cwd : Option Text)
    (v : ValidatedCommand)
    → validate_command config cmd args cwd ≡ ok v
    → (v ≡ record { cmd = cmd; args = args; cwd = normalized cwd }) × Permitted config v
unfolding validate_command
validate_command-Permitted config cmd args cwd v h =
    let (n, h1) =
      guard_ok (is_allowlist config.mode && not (contains config.allowed_commands cmd))
        (command_not_permitted cmd) _ v h in
    let (r, p1, h2) = and_then_ok (resolve_cwd config cwd) _ v h1 in
    let (u, p2, h3) = and_then_ok (validate_args cmd args) _ v h2 in
    let (q, d) = resolve_cwd-InPrefix config cwd r p1 in
    let given : record { cmd = cmd; args = args; cwd = normalized cwd } ≡ v =
      ap (λ z. record { cmd = cmd; args = args; cwd = z }) (sym q) ∙ ok-injective _ v h3 in
    (
      sym given,
      subst (Permitted config) given (record {
        known = λ m. ground (arith, n);
        directory = d;
        no_env = no_env_args cmd args p2;
        no_git_config = λ g. git_args args (git_only cmd args p2 g);
      }),
    )
