-- ===== src/Build/Enums.antt =====
-- What the replacements of build.rs make of the code that xdrgen makes of nfs.x.
use arcticwolf.Base.{
  if◌then◌else◌, ◌≡◌, refl, ap, subst, Bool, true, false, ◌&&◌, List, [], ◌∷◌, ◌++◌, inl, inr, ◌⊎◌,
  ◌==◌, arith,
}
use mathlib.Core.List.{Memᴰ}
use arcticwolf.Base.Text.{Text, codes, bytes_eq, is_prefix, contains}
use arcticwolf.Build.{replace, derives_copy, derives_clone, boxed_enums, remove_copy, rewritten}
use arcticwolf.Build.Replace.{lacks, contains-after, contains-kept, contains-replaced}

-- Every name of the list lacks `#`.
abbrev AllPlain : List Text → Type 0
AllPlain [] = Unit {0}
AllPlain (name ∷ names) = (lacks 35 name ≡ true) × AllPlain names

boxed_enums-AllPlain : AllPlain boxed_enums
unfolding lacks
boxed_enums-AllPlain = (
  refl,
  (
    refl,
    (
      refl,
      (
        refl,
        (
          refl,
          (
            refl,
            (refl, (refl, (refl, (refl, (refl, (refl, (refl, (refl, (refl, (refl, tt)))))))))),
          ),
        ),
      ),
    ),
  ),
)

-- The pattern and the replacement for a name, after their first character.
abbrev copy_tail : Text → Text
copy_tail name = codes "[derive( Copy , Clone , Debug , Eq , PartialEq )] pub enum " ++ name

abbrev clone_tail : Text → Text
clone_tail name = codes "[derive( Clone , Debug , Eq , PartialEq )] pub enum " ++ name

replaced :
    (name other code : Text)
    → lacks 35 name ≡ true
    → lacks 35 other ≡ true
    → (contains code (derives_copy name) ≡ false) ⊎ (name ≡ other)
    → contains (replace (derives_copy other) (derives_clone other) code) (derives_copy name) ≡ false
unfolding lacks is_prefix
replaced name other code plain plain' (inl e) =
    contains-after 35 (copy_tail other) (clone_tail other) (copy_tail name) plain plain' (λ t. refl)
      0 code (inl e)
replaced name other code plain plain' (inr e) =
    contains-after 35 (copy_tail other) (clone_tail other) (copy_tail name) plain plain' (λ t. refl)
      0 code (inr (ap copy_tail e))

remove_copy-free :
    (names : List Text) (name code : Text)
    → AllPlain names
    → lacks 35 name ≡ true
    → (contains code (derives_copy name) ≡ false) ⊎ Memᴰ name names
    → contains (remove_copy names code) (derives_copy name) ≡ false
unfolding remove_copy
remove_copy-free [] name code plains plain (inl e) = e
remove_copy-free [] name code plains plain (inr m) = elim m [ ]
remove_copy-free (n ∷ names) name code plains plain (inl e) =
    remove_copy-free names name _ plains.1 plain (inl (replaced name n code plain plains.0 (inl e)))
remove_copy-free (n ∷ names) name code plains plain (inr (Memᴰ.head same)) =
    remove_copy-free names name _ plains.1 plain
      (inl (replaced name n code plain plains.0 (inr same)))
remove_copy-free (n ∷ names) name code plains plain (inr (Memᴰ.tail m)) =
    remove_copy-free names name _ plains.1 plain (inr m)

member_plain :
    (name : Text) (names : List Text) → AllPlain names → Memᴰ name names → lacks 35 name ≡ true
member_plain name [] plains m = elim m [ ]
member_plain name (n ∷ names) plains (Memᴰ.head same) = rw same plains.0
member_plain name (n ∷ names) plains (Memᴰ.tail m) = member_plain name names plains.1 m

-- The texts differ before either ends.
unfoldable diverge : Text → Text → Bool
diverge [] t = false
diverge (c ∷ cs) [] = false
diverge (c ∷ cs) (d ∷ ds) = let rest = diverge cs ds in if c == d then rest else true

unfoldable all_diverge : Text → List Text → Bool
unfolding diverge
all_diverge name [] = true
all_diverge name (other ∷ others) = diverge name other && all_diverge name others

unfoldable pairwise : List Text → Bool
unfolding all_diverge
pairwise [] = true
pairwise (name ∷ names) = all_diverge name names && pairwise names

diverge-append : (a b c : Text) → diverge b c ≡ true → diverge (a ++ b) (a ++ c) ≡ true
unfolding diverge
diverge-append [] b c e = e
diverge-append (x ∷ a) b c e = ground (arith, diverge-append a b c e)

diverge-is_prefix :
    (a b t : Text) → diverge a b ≡ true → is_prefix b t ≡ true → is_prefix a t ≡ false
unfolding diverge is_prefix
diverge-is_prefix [] b t e front = absurd (cc)
diverge-is_prefix (c ∷ a) [] t e front = absurd (cc)
diverge-is_prefix (c ∷ a) (d ∷ b) [] e front = refl
diverge-is_prefix (c ∷ a) (d ∷ b) (x ∷ t) e front =
    ground (arith, e, front, diverge-is_prefix a b t)

member_diverges :
    (n name : Text) (names : List Text)
    → all_diverge n names ≡ true
    → Memᴰ name names
    → diverge n name ≡ true
unfolding all_diverge
member_diverges n name [] e m = elim m [ ]
member_diverges n name (o ∷ names) e (Memᴰ.head same) = rw same (ground (arith, e))
member_diverges n name (o ∷ names) e (Memᴰ.tail m) =
    member_diverges n name names (ground (arith, e)) m

boxed_enums-pairwise : pairwise boxed_enums ≡ true
unfolding pairwise all_diverge diverge
boxed_enums-pairwise = refl

-- An attribute without `Copy` stays.
remove_copy-clone :
    (names : List Text) (name code : Text)
    → AllPlain names
    → lacks 35 name ≡ true
    → contains code (derives_clone name) ≡ true
    → contains (remove_copy names code) (derives_clone name) ≡ true
unfolding remove_copy lacks diverge
remove_copy-clone [] name code plains plain e = e
remove_copy-clone (n ∷ names) name code plains plain e =
    remove_copy-clone names name _ plains.1 plain (
      contains-kept 35 (copy_tail n) (clone_tail n) plains.0 (clone_tail name) plain
        (λ t front. diverge-is_prefix (35 ∷ copy_tail n) (35 ∷ clone_tail name) t refl front) 0 code
        refl e)

remove_copy-replaces :
    (names : List Text) (name code : Text)
    → AllPlain names
    → lacks 35 name ≡ true
    → pairwise names ≡ true
    → Memᴰ name names
    → contains code (derives_copy name) ≡ true
    → contains (remove_copy names code) (derives_clone name) ≡ true
unfolding remove_copy lacks pairwise
remove_copy-replaces [] name code plains plain apart m e = elim m [ ]
remove_copy-replaces (n ∷ names) name code plains plain apart (Memᴰ.head same) e =
    remove_copy-clone names name _ plains.1 plain (
      subst
        (λ o.
          contains (replace (derives_copy o) (derives_clone o) code) (derives_clone name) ≡ true)
        same (contains-replaced 35 (copy_tail name) (clone_tail name) plain 0 code refl e))
remove_copy-replaces (n ∷ names) name code plains plain apart (Memᴰ.tail m) e =
    let other = member_diverges n name names (ground (arith, apart)) m in
    remove_copy-replaces names name _ plains.1 plain (ground (arith, apart)) m (
      contains-kept 35 (copy_tail n) (clone_tail n) plains.0 (copy_tail name) plain
        (λ t front.
          diverge-is_prefix (derives_copy n) (derives_copy name) t
            (diverge-append (derives_copy []) n name other) front)
        0 code refl e)

-- Where the code that xdrgen makes of nfs.x has, before one of the sixteen enums that build.rs
-- lists, the attribute that derives `Copy`, spelled as build.rs spells it, what is written has
-- the attribute without `Copy` before that enum, and the one with it, so spelled, nowhere before
-- it.
pub rewritten_lem :
    (name code : Text)
    → Memᴰ name boxed_enums
    → contains code (derives_copy name) ≡ true
    → (contains (rewritten (codes "nfs.x") code) (derives_clone name) ≡ true)
      × (contains (rewritten (codes "nfs.x") code) (derives_copy name) ≡ false)
unfolding rewritten bytes_eq
rewritten_lem name code m e =
    let plain = member_plain name boxed_enums boxed_enums-AllPlain m in
    (
      remove_copy-replaces boxed_enums name code boxed_enums-AllPlain plain boxed_enums-pairwise m
          e,
      remove_copy-free boxed_enums name code boxed_enums-AllPlain plain (inr m),
    )
