-- ===== src/Shared/Maps.antt =====
-- Rust's `HashMap`, as an association list with the laws by which the proofs use it.
use mathlib.Core.Path.{◌≡◌, refl}
use mathlib.Core.List.{List, [], ◌∷◌}
use mathlib.Core.Option
use mathlib.Core.Option.{Option, none, some}
use native.Mathlib.Omega.{arith}
use ababilx_chat_sfu.Shared.Tests.{PartialEq, ◌==◌, if◌then◌else◌}

module _ {κ μ} {Key : Type κ} {Value : Type μ} ⦃keys : PartialEq Key⦄ where
  -- `get`
  unfoldable pub lookup : Key → List (Key × Value) → Option Value
  lookup key [] = none
  lookup key (entry ∷ more) = if entry.0 == key then some entry.1 else lookup key more

  -- `insert`
  unfoldable pub insert : Key → Value → List (Key × Value) → List (Key × Value)
  insert key value [] = (key, value) ∷ []
  insert key value (entry ∷ more) =
      if entry.0 == key then (key, value) ∷ more else entry ∷ insert key value more

  -- `remove`
  unfoldable pub remove : Key → List (Key × Value) → List (Key × Value)
  remove key [] = []
  remove key (entry ∷ more) =
      let others = remove key more in if entry.0 == key then others else entry ∷ others

  -- `values_mut()`: every value is rewritten.
  unfoldable pub map_values : (Value → Value) → List (Key × Value) → List (Key × Value)
  map_values f [] = []
  map_values f (entry ∷ more) = (entry.0, f entry.1) ∷ map_values f more

  pub lookup-cons :
      (key first : Key) (value : Value) (more : List (Key × Value))
      → lookup key ((first, value) ∷ more) ≡ (if first == key then some value else lookup key more)
  unfolding lookup
  lookup-cons key first value more = refl

  pub lookup-insert :
      (key wanted : Key) (value : Value) (entries : List (Key × Value))
      → lookup wanted (insert key value entries)
        ≡ (if key == wanted then some value else lookup wanted entries)
  unfolding lookup insert
  lookup-insert key wanted value [] = refl
  lookup-insert key wanted value (entry ∷ more) =
      let ih = lookup-insert key wanted value more in
      ground (
        arith,
        ih,
        keys.matches_iff entry.0 key,
        keys.matches_iff key wanted,
        keys.matches_iff entry.0 wanted,
      )

  pub lookup-remove :
      (key wanted : Key) (entries : List (Key × Value))
      → lookup wanted (remove key entries) ≡ (if key == wanted then none else lookup wanted entries)
  unfolding lookup remove
  lookup-remove key wanted [] = ground arith
  lookup-remove key wanted (entry ∷ more) =
      let ih = lookup-remove key wanted more in
      ground (
        arith,
        ih,
        keys.matches_iff entry.0 key,
        keys.matches_iff key wanted,
        keys.matches_iff entry.0 wanted,
      )

  pub lookup-map_values :
      (f : Value → Value) (wanted : Key) (entries : List (Key × Value))
      → lookup wanted (map_values f entries) ≡ Option.map f (lookup wanted entries)
  unfolding lookup map_values
  lookup-map_values f wanted [] = refl
  lookup-map_values f wanted (entry ∷ more) =
      let ih = lookup-map_values f wanted more in ground (arith, ih)
