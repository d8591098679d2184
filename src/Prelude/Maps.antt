-- ===== src/Prelude/Maps.antt =====
-- `HashMap<String, V>`: what visits every entry, and that there is one entry for a key.
use mxdx.Prelude.Tests.{if◌then◌else◌}
use Prim.Native.String.{String}
use mathlib.Core.Path.{◌≡◌, refl}
use mathlib.Core.Bool.{Bool, false, not, ◌&&◌, ◌||◌}
use mathlib.Core.Option.{none, some}
use mathlib.Core.List.{List, [], ◌∷◌}
use native.Mathlib.Omega.{arith}
use text.Mathlib.Text.{◌==◌ as str_eq}
use text.Mathlib.TextEquality.{eq_iff as str_eq_iff}
use mxdx.Prelude.Dict.{Dict, get, insert, remove, contains_key}

module _ {ℓ} {V : Type ℓ} where
  -- `retain(|_, v| p(v))`
  unfoldable pub retain_values : (V → Bool) → Dict V → Dict V
  retain_values p [] = []
  retain_values p ((k, v) ∷ m) = if p v then (k, v) ∷ retain_values p m else retain_values p m

  -- `for v in values_mut() { *v = f(v) }`
  unfoldable pub map_values : (V → V) → Dict V → Dict V
  map_values f [] = []
  map_values f ((k, v) ∷ m) = (k, f v) ∷ map_values f m

  abbrev pub keys : Dict V → List String
  keys [] = []
  keys ((k, v) ∷ m) = k ∷ keys m

  -- There is one entry for a key.
  abbrev pub Unique : Dict V → Type 0
  Unique [] = Unit
  Unique ((k, v) ∷ m) = (contains_key k m ≡ false) × Unique m

  pub get-absent : (k : String) (m : Dict V) → contains_key k m ≡ false → get k m ≡ none
  unfolding get contains_key
  get-absent k [] h = refl
  get-absent k ((j, v) ∷ m) h = ground (arith, get-absent k m)

  pub contains_key-insert :
      (k j : String) (v : V) (m : Dict V)
      → contains_key j (insert k v m) ≡ (str_eq k j || contains_key j m)
  unfolding contains_key insert
  contains_key-insert k j v [] = ground arith
  contains_key-insert k j v ((i, w) ∷ m) =
      ground (arith, str_eq_iff k j, str_eq_iff i k, str_eq_iff i j, contains_key-insert k j v m)

  pub contains_key-remove :
      (k j : String) (m : Dict V)
      → contains_key j (remove k m) ≡ (not (str_eq k j) && contains_key j m)
  unfolding contains_key remove
  contains_key-remove k j [] = ground arith
  contains_key-remove k j ((i, w) ∷ m) =
      ground (arith, str_eq_iff k j, str_eq_iff i k, str_eq_iff i j, contains_key-remove k j m)

  pub contains_key-map_values :
      (f : V → V) (j : String) (m : Dict V) → contains_key j (map_values f m) ≡ contains_key j m
  unfolding contains_key map_values
  contains_key-map_values f j [] = refl
  contains_key-map_values f j ((i, w) ∷ m) = ground (arith, contains_key-map_values f j m)

  pub contains_key-retain_values :
      (p : V → Bool) (j : String) (m : Dict V)
      → contains_key j m ≡ false
      → contains_key j (retain_values p m) ≡ false
  unfolding contains_key retain_values
  contains_key-retain_values p j [] h = refl
  contains_key-retain_values p j ((i, w) ∷ m) h = ground (arith, contains_key-retain_values p j m)

  pub insert-Unique : (k : String) (v : V) (m : Dict V) → Unique m → Unique (insert k v m)
  unfolding insert contains_key
  insert-Unique k v [] u = (refl, tt)
  insert-Unique k v ((i, w) ∷ m) u =
      ground
        (arith, str_eq_iff i k, contains_key-insert k i v m, insert-Unique k v m, str_eq_iff k i)

  pub remove-Unique : (k : String) (m : Dict V) → Unique m → Unique (remove k m)
  unfolding remove
  remove-Unique k [] u = tt
  remove-Unique k ((i, w) ∷ m) u = ground (arith, contains_key-remove k i m, remove-Unique k m)

  pub map_values-Unique : (f : V → V) (m : Dict V) → Unique m → Unique (map_values f m)
  unfolding map_values
  map_values-Unique f [] u = tt
  map_values-Unique f ((i, w) ∷ m) u =
      ground (arith, contains_key-map_values f i m, map_values-Unique f m)

  pub retain_values-Unique : (p : V → Bool) (m : Dict V) → Unique m → Unique (retain_values p m)
  unfolding retain_values
  retain_values-Unique p [] u = tt
  retain_values-Unique p ((i, w) ∷ m) u =
      ground (arith, contains_key-retain_values p i m, retain_values-Unique p m)

  pub get-map_values :
      (f : V → V) (k : String) (m : Dict V)
      → get k (map_values f m) ≡ (elim (get k m) [ none ↦ none | some v ↦ some (f v) ])
  unfolding get map_values
  get-map_values f k [] = refl
  get-map_values f k ((i, w) ∷ m) = ground (arith, get-map_values f k m)

  -- Values that fail the test are gone, if there is one entry for a key.
  pub get-retain_values :
      (p : V → Bool) (k : String) (m : Dict V)
      → Unique m
      → get k (retain_values p m)
        ≡ (elim (get k m) [ none ↦ none | some v ↦ if p v then some v else none ])
  unfolding get retain_values
  get-retain_values p k [] u = refl
  get-retain_values p k ((i, w) ∷ m) u = ground (
    arith,
    str_eq_iff i k,
    get-retain_values p k m,
    get-absent i m,
    get-absent i (retain_values p m),
    contains_key-retain_values p i m,
  )
