-- ===== src/Shared/Texts.antt =====
-- Texts as Rust's `str` handles them: `trim`, `to_ascii_lowercase` and the reading of a `usize`.
use Prim.Native.Nat.{ℕ, ◌+◌, ◌-◌, ◌*◌, ◌^◌}
use Prim.Native.Char.{Char, code}
use Prim.Native.String.{String, [], ◌∷◌, ◌++◌, slice}
use mathlib.Core.Bool.{Bool, false, ◌&&◌, ◌||◌}
use mathlib.Core.Option.{Option, none, some}
use ababilx_chat_sfu.Shared.Tests.{ltb, leb, nat_eq, if◌then◌else◌}

abbrev between : ℕ → ℕ → ℕ → Bool
between low high n = leb low n && leb n high

-- Unicode's White_Space
is_white : ℕ → Bool
is_white n =
    between 9 13 n
    || nat_eq n 32
    || nat_eq n 133
    || nat_eq n 160
    || nat_eq n 5760
    || between 8192 8202 n
    || nat_eq n 8232
    || nat_eq n 8233
    || nat_eq n 8239
    || nat_eq n 8287
    || nat_eq n 12288

trim_start : String → String
unfolding is_white
trim_start [] = []
trim_start (c ∷ s) = if is_white (code c) then trim_start s else c ∷ s

trim_cons : Char → String → String
unfolding is_white
trim_cons c [] = if is_white (code c) then [] else c ∷ []
trim_cons c (d ∷ s) = c ∷ d ∷ s

trim_end : String → String
unfolding trim_cons
trim_end [] = []
trim_end (c ∷ s) = trim_cons c (trim_end s)

unfoldable pub trim : String → String
unfolding trim_start trim_end
trim s = trim_end (trim_start s)

lower : Char → String
lower c =
    let letter = code c - 65 in
    if between 65 90 (code c)
    then slice "abcdefghijklmnopqrstuvwxyz" letter (letter + 1)
    else c ∷ []

unfoldable pub to_ascii_lowercase : String → String
unfolding lower
to_ascii_lowercase [] = []
to_ascii_lowercase (c ∷ s) = lower c ++ to_ascii_lowercase s

-- A `usize` has 64 bits.
usize_mod : ℕ
usize_mod = 2 ^ 64

-- The digits that follow, or nothing where a character is no digit or the number is too large.
digits : ℕ → String → Option ℕ
unfolding usize_mod
digits n [] = some n
digits n (c ∷ s) =
    let m = n * 10 + (code c - 48) in
    let rest = digits m s in if between 48 57 (code c) && ltb m usize_mod then rest else none

some_digits : String → Option ℕ
unfolding digits
some_digits [] = none
some_digits (c ∷ s) = digits 0 (c ∷ s)

-- `parse::<usize>()`, where a plus may lead
unfoldable pub parse_usize : String → Option ℕ
unfolding some_digits
parse_usize [] = none
parse_usize (c ∷ s) = if nat_eq (code c) 43 then some_digits s else some_digits (c ∷ s)

abbrev pub is_colon : Char → Bool
is_colon c = nat_eq (code c) 58

unfoldable pub has_colon : String → Bool
has_colon [] = false
has_colon (c ∷ s) = is_colon c || has_colon s

-- `rsplit(':').next()`
unfoldable pub after_last_colon : String → String
unfolding has_colon
after_last_colon [] = []
after_last_colon (c ∷ s) =
    let rest = after_last_colon s in if has_colon s then rest else if is_colon c then s else c ∷ s
