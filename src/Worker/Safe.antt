-- ===== src/Worker/Safe.antt =====
-- executor.rs of the worker: what is known of a command that was accepted.
use mxdx.Prelude.{
  ℕ, suc, ◌≤◌, ◌≡◌, ◌≢◌, refl, sym, ap, subst, ◌∙◌, ◌⊎◌, inl, inr, Bool, true, false, not, List, [],
  ◌∷◌, ◌++◌, Option, some, none, ◌==◌, any, all, All, arith, Bool-cases,
}
use mxdx.Prelude.Bytes.{bytes_eq, bytes_eq→eq}
use mxdx.Prelude.Chars.{
  Text, contains_char, contains_text, starts_with-rest, contains_char-append, contains_text-append,
}
use mxdx.Prelude.Results.{ok, err, guard_ok, ok-injective}
use mxdx.Worker.Executor.{
  Env, ValidatedCommand, Checked, Filesystem, shell_metacharacters, and_then, validate_bin,
  validate_args_from, validate_args, validate_cwd, is_key_char, is_valid_env_key, validate_env,
  validate_allowlist, trim_slashes, is_under, validate_cwd_allowlist, validate_cwd_gate,
  validate_some_env, validate_some_cwd, env_or_default, validate_command,
}

-- The character stands nowhere in the text.
abbrev pub Without : ℕ → Text → Type 0
Without c t = (xs ys : Text) → t ≢ xs ++ c ∷ ys

abbrev pub Upper : ℕ → Type 0
Upper c = (65 ≤ c × c ≤ 90) ⊎ (c ≡ 95)

abbrev pub Word : ℕ → Type 0
Word c = Upper c ⊎ (48 ≤ c × c ≤ 57)

-- `[A-Z_][A-Z0-9_]*`
abbrev pub EnvKey : Text → Type 0
EnvKey [] = ⊥
EnvKey (c ∷ cs) = Upper c × All Word cs

-- The text is one of the list.
abbrev pub Listed : Text → List Text → Type 0
Listed a allowed = (xs : List Text) × (ys : List Text) × (allowed ≡ xs ++ a ∷ ys)

-- The directory is an allowed one, or its path goes on after an allowed one and a slash.
abbrev pub Under : Text → List Text → Type 0
Under cwd allowed =
    (a : Text) × Listed a allowed
    × ((cwd ≡ a) ⊎ ((rest : Text) × (cwd ≡ trim_slashes a ++ 47 ∷ rest)))

pub record SafeCwd (fs : Filesystem) (allowed : List Text) (cwd : Text) : Type 0 where
  pub absolute : (rest : Text) × (cwd ≡ 47 ∷ rest)
  pub no_traversal : (xs ys : Text) → cwd ≢ xs ++ 46 ∷ 46 ∷ ys
  pub directory : fs.is_dir cwd ≡ true
  pub under : Under cwd allowed

abbrev pub SafeOption : Filesystem → List Text → Option Text → Type 0
SafeOption fs allowed none = allowed ≡ []
SafeOption fs allowed (some cwd) = SafeCwd fs allowed cwd

pub record Safe (fs : Filesystem) (allowed_commands allowed_cwd : List Text) (v : ValidatedCommand)
    : Type 0 where
  pub listed : Listed v.bin allowed_commands
  pub no_metacharacters : (c : ℕ) → contains_char c shell_metacharacters ≡ true → Without c v.bin
  pub no_null_byte : All (Without 0) v.args
  pub keys : All (λ e. EnvKey e.0) v.env
  pub cwd : SafeOption fs allowed_cwd v.cwd

and_then_ok :
    {A : Type 0} (r : Checked Unit) (rest : Checked A) (a : A)
    → and_then r rest ≡ ok a
    → (r ≡ ok tt) × (rest ≡ ok a)
and_then_ok (ok u) rest a h = (refl, h)
and_then_ok (err e) rest a h = cc

-- A character that is not found stands nowhere.
absent : (c : ℕ) (t : Text) → contains_char c t ≡ false → Without c t
absent c t h xs ys q = ground (arith, contains_char-append xs ys c, ap (contains_char c) q)

one_of :
    (p : Text → Bool) (allowed : List Text)
    → any p allowed ≡ true
    → (a : Text) × (p a ≡ true) × Listed a allowed
one_of p [] h = cc
one_of p (a ∷ allowed) h = elim (Bool-cases (p a)) [
  | inl y ↦ (a, y, ([], allowed, refl))
  | inr n ↦
      let (b, y, (xs, ys, q)) = one_of p allowed (ground arith) in
      (b, y, (a ∷ xs, ys, ap (λ l. a ∷ l) q))
]

no_meta :
    (bin : Text) (metas : List ℕ) (c : ℕ)
    → any (λ m. contains_char m bin) metas ≡ false
    → contains_char c metas ≡ true
    → contains_char c bin ≡ false
unfolding contains_char
no_meta bin [] c h g = cc
no_meta bin (m ∷ metas) c h g = elim (Bool-cases (m == c)) [
  | inl y ↦
      let same : m ≡ c = ground arith in
      let clear : contains_char m bin ≡ false = ground arith in
      sym (ap (λ x. contains_char x bin) same) ∙ clear
  | inr n ↦ no_meta bin metas c (ground arith) (ground arith)
]

bin-Without :
    (fs : Filesystem) (bin : Text)
    → validate_bin fs bin ≡ ok tt
    → (c : ℕ) → contains_char c shell_metacharacters ≡ true
    → Without c bin
unfolding validate_bin
bin-Without fs bin h c g =
    let (e, h1) = guard_ok _ _ _ tt h in
    let (m, h2) = guard_ok _ _ _ tt h1 in absent c bin (no_meta bin shell_metacharacters c m g)

args-Without : (i : ℕ) (args : List Text) → validate_args_from i args ≡ ok tt → All (Without 0) args
unfolding validate_args_from
args-Without i [] h = tt
args-Without i (arg ∷ args) h = elim (Bool-cases (contains_char 0 arg)) [
  | inl y ↦ absurd (ground arith)
  | inr n ↦ (absent 0 arg n, args-Without (suc i) args (ground arith))
]

all-Word : (cs : Text) → all is_key_char cs ≡ true → All Word cs
all-Word [] h = tt
all-Word (c ∷ cs) h = (ground arith, all-Word cs (ground arith))

key-EnvKey : (key : Text) → is_valid_env_key key ≡ true → EnvKey key
unfolding is_valid_env_key
key-EnvKey [] h = cc
key-EnvKey (c ∷ cs) h = (ground arith, all-Word cs (ground arith))

env-EnvKey : (env : Env) → validate_env env ≡ ok tt → All (λ e. EnvKey e.0) env
unfolding validate_env
env-EnvKey [] h = tt
env-EnvKey ((key, value) ∷ env) h = elim (Bool-cases (is_valid_env_key key)) [
  | inl y ↦ (key-EnvKey key y, env-EnvKey env (ground arith))
  | inr n ↦ absurd (ground arith)
]

undo_not : (b : Bool) → not b ≡ false → b ≡ true
undo_not b h = ground arith

append-slash : (a rest : Text) → (a ++ 47 ∷ []) ++ rest ≡ a ++ 47 ∷ rest
append-slash [] rest = refl
append-slash (x ∷ a) rest = ap (λ l. x ∷ l) (append-slash a rest)

is_under-Under :
    (cwd a : Text)
    → is_under cwd a ≡ true
    → (cwd ≡ a) ⊎ ((rest : Text) × (cwd ≡ trim_slashes a ++ 47 ∷ rest))
unfolding is_under
is_under-Under cwd a h = elim (Bool-cases (bytes_eq cwd a)) [
  | inl y ↦ inl (bytes_eq→eq cwd a y)
  | inr n ↦
      let (rest, q) = starts_with-rest cwd (trim_slashes a ++ 47 ∷ []) (ground arith) in
      inr (rest, q ∙ append-slash (trim_slashes a) rest)
]

gate-Under :
    (cwd : Text) (allowed : List Text)
    → validate_cwd_allowlist cwd allowed ≡ ok tt
    → Under cwd allowed
unfolding validate_cwd_allowlist
gate-Under cwd allowed h =
    let (e, h1) = guard_ok _ _ _ tt h in
    let (m, h2) = guard_ok _ _ _ tt h1 in
    let (a, y, l) = one_of (is_under cwd) allowed (undo_not _ m) in (a, l, is_under-Under cwd a y)

allowlist-Listed :
    (bin : Text) (allowed : List Text) → validate_allowlist bin allowed ≡ ok tt → Listed bin allowed
unfolding validate_allowlist
allowlist-Listed bin allowed h =
    let (e, h1) = guard_ok _ _ _ tt h in
    let (m, h2) = guard_ok _ _ _ tt h1 in
    let (a, y, l) = one_of (λ x. bytes_eq x bin) allowed (undo_not _ m) in
    subst (λ x. Listed x allowed) (bytes_eq→eq a bin y) l

cwd-SafeCwd :
    (fs : Filesystem) (allowed : List Text) (cwd : Text)
    → validate_cwd fs cwd ≡ ok tt
    → Under cwd allowed
    → SafeCwd fs allowed cwd
unfolding validate_cwd
cwd-SafeCwd fs allowed cwd h u =
    let (a, h1) = guard_ok _ _ _ tt h in
    let (t, h2) = guard_ok _ _ _ tt h1 in
    let (d, h3) = guard_ok _ _ _ tt h2 in
    record {
      absolute = starts_with-rest cwd (47 ∷ []) (undo_not _ a);
      no_traversal = λ xs ys q. ground (
        arith,
        contains_text-append xs (46 ∷ 46 ∷ []) ys,
        ap (λ z. contains_text z (46 ∷ 46 ∷ [])) q,
      );
      directory = undo_not _ d;
      under = u;
    }

some_cwd-Safe :
    (fs : Filesystem) (allowed : List Text) (cwd : Option Text)
    → validate_cwd_gate cwd allowed ≡ ok tt
    → validate_some_cwd fs cwd ≡ ok tt
    → SafeOption fs allowed cwd
unfolding validate_cwd_gate validate_some_cwd
some_cwd-Safe fs [] none g h = refl
some_cwd-Safe fs (a ∷ allowed) none g h = cc
some_cwd-Safe fs allowed (some cwd) g h = cwd-SafeCwd fs allowed cwd h (gate-Under cwd allowed g)

some_env-EnvKey :
    (env : Option Env) → validate_some_env env ≡ ok tt → All (λ e. EnvKey e.0) (env_or_default env)
unfolding validate_some_env
some_env-EnvKey none h = tt
some_env-EnvKey (some env) h = env-EnvKey env h

-- Whatever the file system answers: a command that the worker accepts is the one that was asked
-- for, its binary is in the allowlist and holds no shell metacharacter, no argument holds a null
-- byte, every environment key has the shape [A-Z_][A-Z0-9_]*, and a directory is absolute,
-- exists, has no two dots in a row and is an allowed one or lies below one after a slash; without
-- a directory the list of the allowed ones is empty.
pub validate_command-Safe :
    (fs : Filesystem) (bin : Text) (args : List Text) (env : Option Env) (cwd : Option Text)
    (allowed_commands allowed_cwd : List Text) (v : ValidatedCommand)
    → validate_command fs bin args env cwd allowed_commands allowed_cwd ≡ ok v
    → (v ≡ record { bin = bin; args = args; env = env_or_default env; cwd = cwd })
      × Safe fs allowed_commands allowed_cwd v
unfolding validate_command validate_args
validate_command-Safe fs bin args env cwd allowed_commands allowed_cwd v h =
    let (p1, h1) = and_then_ok _ _ v h in
    let (p2, h2) = and_then_ok _ _ v h1 in
    let (p3, h3) = and_then_ok _ _ v h2 in
    let (p4, h4) = and_then_ok _ _ v h3 in
    let (p5, h5) = and_then_ok _ _ v h4 in
    let (p6, h6) = and_then_ok _ _ v h5 in
    let given : record { bin = bin; args = args; env = env_or_default env; cwd = cwd } ≡ v =
      ok-injective _ _ h6 in
    (
      sym given,
      subst (Safe fs allowed_commands allowed_cwd) given (record {
        listed = allowlist-Listed bin allowed_commands p1;
        no_metacharacters = bin-Without fs bin p3;
        no_null_byte = args-Without 0 args p4;
        keys = some_env-EnvKey env p5;
        cwd = some_cwd-Safe fs allowed_cwd cwd p2 p6;
      }),
    )
