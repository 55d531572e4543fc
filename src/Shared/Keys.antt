-- ===== src/Shared/Keys.antt =====
-- An association list in which no key stands twice, as in Rust's `HashMap`.
use mathlib.Core.Path.{◌≡◌, refl, sym, ap, subst}
use mathlib.Core.Logic.{◌≢◌, inl, inr}
use mathlib.Core.List.{List, [], ◌∷◌, map}
use mathlib.Core.Option.{none, some}
use native.Mathlib.Omega.{arith}
use ababilx_chat_sfu.Shared.Tests.{PartialEq, ◌==◌, Bool-cases}
use ababilx_chat_sfu.Shared.Lists.{All}
use ababilx_chat_sfu.Shared.Maps.{lookup, insert, remove, map_values}

abbrev AllDiffer {κ} : {Key : Type κ} → List Key → Type κ
AllDiffer [] = Unit
AllDiffer {Key} (k ∷ ks) = All (λ (j : Key). j ≢ k) ks × AllDiffer ks

module _ {κ μ} {Key : Type κ} {Value : Type μ} where
  abbrev pub keys_of : List (Key × Value) → List Key
  keys_of = map (λ (e : Key × Value). e.0)

  abbrev pub Unique : List (Key × Value) → Type κ
  Unique m = AllDiffer (keys_of m)

module _ {κ μ} {Key : Type κ} {Value : Type μ} ⦃keys : PartialEq Key⦄ where
  absent :
      (k : Key) (m : List (Key × Value)) → All (λ (j : Key). j ≢ k) (keys_of m) → lookup k m ≡ none
  unfolding lookup
  absent k [] h = ground arith
  absent k (e ∷ m) h = ground (arith, h.0, keys.matches_iff e.0 k, absent k m h.1)

  keys-insert {ℓ} :
      (P : Key → Type ℓ) (k : Key) (v : Value) (m : List (Key × Value))
      → All P (keys_of m)
      → P k
      → All P (keys_of (insert k v m))
  unfolding insert
  keys-insert P k v [] h p = (p, tt)
  keys-insert P k v (e ∷ m) h p = elim (Bool-cases (e.0 == k)) [
    | inl same ↦ rw same (p, h.1)
    | inr other ↦ rw other (h.0, keys-insert P k v m h.1 p)
  ]

  keys-remove {ℓ} :
      (P : Key → Type ℓ) (k : Key) (m : List (Key × Value))
      → All P (keys_of m)
      → All P (keys_of (remove k m))
  unfolding remove
  keys-remove P k [] h = tt
  keys-remove P k (e ∷ m) h = elim (Bool-cases (e.0 == k)) [
    | inl same ↦ rw same (keys-remove P k m h.1)
    | inr other ↦ rw other (h.0, keys-remove P k m h.1)
  ]

  pub Unique-insert :
      (k : Key) (v : Value) (m : List (Key × Value)) → Unique m → Unique (insert k v m)
  unfolding insert
  Unique-insert k v [] u = (tt, tt)
  Unique-insert k v (e ∷ m) u = elim (Bool-cases (e.0 == k)) [
    | inl same ↦ rw same (
      subst (λ j. All (λ (i : Key). i ≢ j) (keys_of m)) ((keys.matches_iff e.0 k).0 same) u.0,
      u.1,
    )
    | inr other ↦ rw other (
      keys-insert (λ j. j ≢ e.0) k v m u.0 (λ x. ground (arith, other, keys.matches_iff e.0 k, x)),
      Unique-insert k v m u.1,
    )
  ]

  pub Unique-remove : (k : Key) (m : List (Key × Value)) → Unique m → Unique (remove k m)
  unfolding remove
  Unique-remove k [] u = tt
  Unique-remove k (e ∷ m) u = elim (Bool-cases (e.0 == k)) [
    | inl same ↦ rw same (Unique-remove k m u.1)
    | inr other ↦ rw other (keys-remove (λ j. j ≢ e.0) k m u.0, Unique-remove k m u.1)
  ]

  -- Every entry is the one that its key finds.
  pub All-lookup {ℓ} :
      (P : Key → Value → Type ℓ) (m : List (Key × Value))
      → Unique m
      → ((k : Key) (v : Value) → lookup k m ≡ some v → P k v)
      → All (λ (e : Key × Value). P e.0 e.1) m
  unfolding lookup
  All-lookup P [] u f = tt
  All-lookup P (e ∷ m) u f = (
    f e.0 e.1 (ground (arith, keys.matches_iff e.0 e.0)),
    All-lookup P m u.1
        (λ k v there. f k v (ground (arith, there, keys.matches_iff e.0 k, absent e.0 m u.0))),
  )

  pub lookup_of_all {ℓ} :
      (P : Key → Value → Type ℓ) (m : List (Key × Value)) (k : Key) (v : Value)
      → All (λ (e : Key × Value). P e.0 e.1) m
      → lookup k m ≡ some v
      → P k v
  unfolding lookup
  lookup_of_all P [] k v h there = absurd (ground (arith, there))
  lookup_of_all P (e ∷ m) k v h there = elim (Bool-cases (e.0 == k)) [
    | inl same ↦
        subst (λ j. P j v) ((keys.matches_iff e.0 k).0 same)
          (subst (P e.0) (ground (arith, there, same)) h.0)
    | inr other ↦ lookup_of_all P m k v h.1 (ground (arith, there, other))
  ]

module _ {κ μ} {Key : Type κ} {Value : Type μ} where
  pub Unique-same_keys : (a b : List (Key × Value)) → keys_of b ≡ keys_of a → Unique a → Unique b
  Unique-same_keys a b e u = subst AllDiffer (sym e) u

module _ {κ μ} {Key : Type κ} {Value : Type μ} ⦃keys : PartialEq Key⦄ where
  pub keys-map_values :
      (f : Value → Value) (m : List (Key × Value)) → keys_of (map_values f m) ≡ keys_of m
  unfolding map_values
  keys-map_values f [] = refl
  keys-map_values f (e ∷ m) = ap (λ l. e.0 ∷ l) (keys-map_values f m)
