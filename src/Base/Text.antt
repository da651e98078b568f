-- ===== src/Base/Text.antt =====
-- Texts as lists of bytes, with the tests of `str` that the program uses.
use Prim.Native.Char.{code}
use Prim.Native.String.{String}
use Prim.Native.Nat.{ℕ, ◌+◌}
use mathlib.Core.Path.{◌≡◌, refl}
use mathlib.Core.Bool.{Bool, true, false, ◌&&◌, ◌||◌}
use mathlib.Core.List.{List, [], ◌∷◌, ◌++◌}
use native.Mathlib.Omega.{arith}
use arcticwolf.Base.Tests.{◌==◌, leb, if◌then◌else◌}

abbrev pub Bytes : Type 0
Bytes = List ℕ

-- A `str` or `OsStr`, as its bytes.
abbrev pub Text : Type 0
Text = List ℕ

-- The bytes of an ASCII literal.
abbrev pub codes : String → Text
codes String.[] = []
codes (String.◌∷◌ c s) = code c ∷ codes s

-- `==` on byte strings.
unfoldable pub bytes_eq : Bytes → Bytes → Bool
bytes_eq [] [] = true
bytes_eq (x ∷ xs) (y ∷ ys) = x == y && bytes_eq xs ys
bytes_eq _ _ = false

unfoldable pub is_prefix : Text → Text → Bool
is_prefix [] t = true
is_prefix (c ∷ cs) [] = false
is_prefix (c ∷ cs) (d ∷ ds) = c == d && is_prefix cs ds

-- `t.contains(needle)`
unfoldable pub contains : Text → Text → Bool
contains [] needle = is_prefix needle []
contains (c ∷ cs) needle = is_prefix needle (c ∷ cs) || contains cs needle

-- `to_lowercase`, which leaves all but ASCII letters as they are here.
unfoldable pub to_lowercase : Text → Text
to_lowercase [] = []
to_lowercase (c ∷ cs) = (if leb 65 c && leb c 90 then c + 32 else c) ∷ to_lowercase cs

pub bytes_eq_refl : (xs : Bytes) → bytes_eq xs xs ≡ true
unfolding bytes_eq
bytes_eq_refl [] = refl
bytes_eq_refl (x ∷ xs) = ground (arith, bytes_eq_refl xs)

pub bytes_eq→eq : (xs ys : Bytes) → bytes_eq xs ys ≡ true → xs ≡ ys
unfolding bytes_eq
bytes_eq→eq [] [] h = refl
bytes_eq→eq (x ∷ xs) (y ∷ ys) h = ground (arith, bytes_eq→eq xs ys)
bytes_eq→eq [] (y ∷ ys) h = ground arith
bytes_eq→eq (x ∷ xs) [] h = ground arith

-- `==` on lists of texts.
unfoldable pub texts_eq : List Text → List Text → Bool
texts_eq [] [] = true
texts_eq (t ∷ ts) (u ∷ us) = bytes_eq t u && texts_eq ts us
texts_eq _ _ = false

pub texts_eq_refl : (ts : List Text) → texts_eq ts ts ≡ true
unfolding texts_eq
texts_eq_refl [] = refl
texts_eq_refl (t ∷ ts) = ground (arith, bytes_eq_refl t, texts_eq_refl ts)

pub texts_eq→eq : (ts us : List Text) → texts_eq ts us ≡ true → ts ≡ us
unfolding texts_eq
texts_eq→eq [] [] h = refl
texts_eq→eq (t ∷ ts) (u ∷ us) h = ground (arith, bytes_eq→eq t u, texts_eq→eq ts us)
texts_eq→eq [] (u ∷ us) h = ground arith
texts_eq→eq (t ∷ ts) [] h = ground arith

is_prefix-append : (needle t : Text) → is_prefix needle (needle ++ t) ≡ true
unfolding is_prefix
is_prefix-append [] t = refl
is_prefix-append (c ∷ cs) t = ground (arith, is_prefix-append cs t)

contains_front : (t needle : Text) → is_prefix needle t ≡ true → contains t needle ≡ true
unfolding contains
contains_front [] needle h = h
contains_front (c ∷ cs) needle h = ground (arith, h)

-- A text contains what stands anywhere in it.
pub contains-append : (a needle b : Text) → contains (a ++ (needle ++ b)) needle ≡ true
unfolding contains
contains-append [] needle b = contains_front (needle ++ b) needle (is_prefix-append needle b)
contains-append (c ∷ a) needle b = ground (arith, contains-append a needle b)
