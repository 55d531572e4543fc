-- ===== src/Shared/Orders.antt =====
-- The order of texts by their bytes, which is the order of `sort` on a `Vec<String>`.
use Prim.Native.Nat.{ℕ, Ordering}
use Prim.Native.Nat.{compare as compare_nat}
use Prim.Native.String.{String, [], ◌∷◌, compare, then as lexi}
use Prim.Native.Char.{Char, code}
use Prim.Native.String.compare
use mathlib.Core.Path.{◌≡◌, refl, ap, ap₂, ◌∙◌}
use mathlib.Core.Bool.{Bool, true, false}
use native.Mathlib.Omega.{arith}
use text.Mathlib.Text.{is_le}
use text.Mathlib.TextEquality.{codes_equal}
use ababilx_chat_sfu.Shared.Tests.{ltb, nat_eq, if◌then◌else◌}

unfoldable pub at_most : String → String → Bool
at_most s t = is_le (compare s t)

same_compared : (m n : ℕ) → m ≡ n → compare_nat m n ≡ Ordering.eq
same_compared m n h = ground (arith, h)

-- By the first characters that differ.
is_le-lexi :
    (o p : Ordering)
    → is_le (lexi o p) ≡ (
        if (elim o [ Ordering.lt ↦ true | _ ↦ false ])
        then true
        else if (elim o [ Ordering.eq ↦ true | _ ↦ false ])
        then is_le p
        else false)
is_le-lexi Ordering.lt p = refl
is_le-lexi Ordering.eq p = refl
is_le-lexi Ordering.gt p = refl

at_most-cons :
    (c d : Char) (s t : String)
    → at_most (c ∷ s) (d ∷ t) ≡ (
        if ltb (code c) (code d)
        then true
        else if nat_eq (code c) (code d)
        then at_most s t
        else false)
unfolding at_most
at_most-cons c d s t =
    ap is_le (compare.cons-cons c d s t) ∙ is_le-lexi (compare_nat (code c) (code d)) (compare s t)

at_most-first : (t : String) → at_most [] t ≡ true
unfolding at_most
at_most-first [] = ap is_le compare.nil-nil
at_most-first (d ∷ t) = ap is_le (compare.nil-cons d t)

at_most-last : (c : Char) (s : String) → at_most (c ∷ s) [] ≡ false
unfolding at_most
at_most-last c s = ap is_le (compare.cons-nil c s)

pub at_most_total : (s t : String) → at_most s t ≡ false → at_most t s ≡ true
at_most_total [] t h = ground (arith, h, at_most-first t)
at_most_total (c ∷ s) [] h = at_most-first (c ∷ s)
at_most_total (c ∷ s) (d ∷ t) h =
    ground (arith, at_most-cons c d s t, at_most-cons d c t s, at_most_total s t, h)

pub at_most_trans : (s t u : String) → at_most s t ≡ true → at_most t u ≡ true → at_most s u ≡ true
at_most_trans [] t u h k = at_most-first u
at_most_trans (c ∷ s) [] u h k = ground (arith, h, at_most-last c s)
at_most_trans (c ∷ s) (d ∷ t) [] h k = ground (arith, k, at_most-last d t)
at_most_trans (c ∷ s) (d ∷ t) (e ∷ u) h k = ground (
  arith,
  at_most-cons c d s t,
  at_most-cons d e t u,
  at_most-cons c e s u,
  at_most_trans s t u,
  h,
  k,
)

pub at_most_antisym : (s t : String) → at_most s t ≡ true → at_most t s ≡ true → s ≡ t
at_most_antisym [] [] h k = refl
at_most_antisym [] (d ∷ t) h k = absurd (ground (arith, k, at_most-last d t))
at_most_antisym (c ∷ s) [] h k = absurd (ground (arith, h, at_most-last c s))
at_most_antisym (c ∷ s) (d ∷ t) h k =
    let same : code c ≡ code d = ground (arith, at_most-cons c d s t, at_most-cons d c t s, h, k) in
    let rest : s ≡ t =
      at_most_antisym s t (ground (arith, at_most-cons c d s t, h, same))
        (ground (arith, at_most-cons d c t s, k, same)) in
    ap₂ (λ a b. a ∷ b) (codes_equal c d (same_compared (code c) (code d) same)) rest
