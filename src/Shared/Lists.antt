-- ===== src/Shared/Lists.antt =====
-- Lists searched, filtered and measured, and predicates on all their elements.
use Prim.Native.Nat.{ℕ, suc, ◌+◌, ◌≤◌, ◌<◌}
use mathlib.Core.Path.{◌≡◌, refl, subst}
use mathlib.Core.Bool.{Bool, true, false}
use mathlib.Core.List.{List, [], ◌∷◌, ◌++◌}
use mathlib.Core.Option.{Option, none, some}
use mathlib.Core.Logic.{inl, inr}
use native.Mathlib.Omega.{arith}
use ababilx_chat_sfu.Shared.Tests.{nat_eq, nat_Eq, Bool-cases, if◌then◌else◌}

module _ {ℓ} {A : Type ℓ} where
  abbrev pub length : List A → ℕ
  length [] = 0
  length (x ∷ xs) = suc (length xs)

  -- `iter().find(..)`
  abbrev pub find : (A → Bool) → List A → Option A
  find test [] = none
  find test (x ∷ xs) = if test x then some x else find test xs

  -- `iter().filter(..)`, `retain(..)`
  abbrev pub keep : (A → Bool) → List A → List A
  keep test [] = []
  keep test (x ∷ xs) = let rest = keep test xs in if test x then x ∷ rest else rest

  -- `iter().any(..)`
  abbrev pub any : (A → Bool) → List A → Bool
  any test [] = false
  any test (x ∷ xs) = if test x then true else any test xs

  -- a write through `iter_mut().find(..)`: the first element that passes
  abbrev pub update_first : (A → Bool) → (A → A) → List A → List A
  update_first test f [] = []
  update_first test f (x ∷ xs) = if test x then f x ∷ xs else x ∷ update_first test f xs

  -- `position(..)` followed by `remove`
  abbrev pub remove_first : (A → Bool) → List A → List A
  remove_first test [] = []
  remove_first test (x ∷ xs) = if test x then xs else x ∷ remove_first test xs

  abbrev pub All {κ} : (A → Type κ) → List A → Type κ
  All P [] = Unit
  All P (x ∷ xs) = P x × All P xs

  pub All-map : (P Q : A → Type 0) (xs : List A) → ((x : A) → P x → Q x) → All P xs → All Q xs
  All-map P Q [] f h = tt
  All-map P Q (x ∷ xs) f h = (f x h.0, All-map P Q xs f h.1)

  pub All-and :
      (P Q R : A → Type 0) (xs : List A)
      → ((x : A) → P x → Q x → R x)
      → All P xs
      → All Q xs
      → All R xs
  All-and P Q R [] f h k = tt
  All-and P Q R (x ∷ xs) f h k = (f x h.0 k.0, All-and P Q R xs f h.1 k.1)

  pub All-append : (P : A → Type 0) (xs ys : List A) → All P xs → All P ys → All P (xs ++ ys)
  All-append P [] ys h k = k
  All-append P (x ∷ xs) ys h k = (h.0, All-append P xs ys h.1 k)

  pub All-keep : (P : A → Type 0) (test : A → Bool) (xs : List A) → All P xs → All P (keep test xs)
  All-keep P test [] h = tt
  All-keep P test (x ∷ xs) h = elim (Bool-cases (test x)) [
    | inl y ↦ rw y (h.0, All-keep P test xs h.1)
    | inr n ↦ rw n (All-keep P test xs h.1)
  ]

  pub All-remove_first :
      (P : A → Type 0) (test : A → Bool) (xs : List A) → All P xs → All P (remove_first test xs)
  All-remove_first P test [] h = tt
  All-remove_first P test (x ∷ xs) h = elim (Bool-cases (test x)) [
    | inl e ↦ rw e h.1
    | inr e ↦ rw e (h.0, All-remove_first P test xs h.1)
  ]

  pub find_of_all :
      (P : A → Type 0) (test : A → Bool) (xs : List A) (x : A)
      → All P xs
      → find test xs ≡ some x
      → P x
  find_of_all P test [] x h e = absurd (ground (arith, e))
  find_of_all P test (y ∷ xs) x h e = elim (Bool-cases (test y)) [
    | inl hit ↦ subst P (ground (arith, e, hit)) h.0
    | inr miss ↦ find_of_all P test xs x h.1 (ground (arith, e, miss))
  ]

  pub length-append : (xs ys : List A) → length (xs ++ ys) ≡ length xs + length ys
  length-append [] ys = omega arith
  length-append (x ∷ xs) ys = omega (arith, length-append xs ys)

  pub length-keep-le : (test : A → Bool) (xs : List A) → length (keep test xs) ≤ length xs
  length-keep-le test [] = omega arith
  length-keep-le test (x ∷ xs) = ground (arith, length-keep-le test xs)

module _ {ℓ κ} {A : Type ℓ} {B : Type κ} where
  -- `iter().filter_map(..)`
  abbrev pub pick : (A → Option B) → List A → List B
  pick f [] = []
  pick f (x ∷ xs) = elim (f x) [ none ↦ pick f xs | some b ↦ b ∷ pick f xs ]

  -- `iter().flat_map(..)`
  abbrev pub gather : (A → List B) → List A → List B
  gather f [] = []
  gather f (x ∷ xs) = f x ++ gather f xs

abbrev pub bit : Bool → ℕ
bit true = 1
bit false = 0

-- How often a number stands in a list.
module _ (n : ℕ) where
  abbrev pub count : List ℕ → ℕ
  count [] = 0
  count (m ∷ ms) = bit (nat_eq m n) + count ms

  pub count-append : (ms more : List ℕ) → count (ms ++ more) ≡ count ms + count more
  count-append [] more = omega arith
  count-append (m ∷ ms) more = omega (arith, count-append ms more)

-- A number that is no smaller than all of a list.
pub count_above : (a n : ℕ) (xs : List ℕ) → All (λ (x : ℕ). x < n) xs → n ≤ a → count a xs ≡ 0
count_above a n [] h k = refl
count_above a n (x ∷ xs) h k = ground (arith, count_above a n xs h.1 k)

pub All-count : (P : ℕ → Type 0) (xs : List ℕ) → ((a : ℕ) → 0 < count a xs → P a) → All P xs
All-count P [] f = tt
All-count P (x ∷ xs) f = (
  f x (ground (arith, nat_Eq.matches_iff x x)),
  All-count P xs (λ a more. f a (omega (arith, more))),
)
