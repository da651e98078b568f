-- ===== src/Base/HashMap.antt =====
-- `HashMap` as an association list, over keys with the equivalence that `Eq` gives them.
use mathlib.Core.Path.{◌≡◌, refl}
use mathlib.Core.Bool.{Bool, true}
use mathlib.Core.Option.{Option, none, some}
use mathlib.Core.List.{List, [], ◌∷◌}
use native.Mathlib.Omega.{arith}
use arcticwolf.Base.Tests.{if◌then◌else◌}

-- `Eq`: an equivalence, stated by reflexivity and by replacing equals on the left.
pub record Eq (K : Type 0) : Type 0 where
  pub beq : K → K → Bool
  pub beq_refl : (a : K) → beq a a ≡ true
  pub beq_cong : (a b c : K) → beq a b ≡ true → beq a c ≡ beq b c

abbrev pub HashMap : Type 0 → Type 0 → Type 0
HashMap K V = List (K × V)

pub beq_sym : {K : Type 0} ⦃e : Eq K⦄ (a b : K) → e.beq a b ≡ true → e.beq b a ≡ true
beq_sym ⦃e⦄ a b h = ground (arith, e.beq_cong a b a h, e.beq_refl a)

module _ {K V : Type 0} ⦃e : Eq K⦄ where
  unfoldable pub get : HashMap K V → K → Option V
  get [] k = none
  get ((j, v) ∷ m) k = if e.beq j k then some v else get m k

  -- An equal key keeps its place and gets the new value.
  unfoldable pub insert : HashMap K V → K → V → HashMap K V
  insert [] k v = (k, v) ∷ []
  insert ((j, w) ∷ m) k v = if e.beq j k then (j, v) ∷ m else (j, w) ∷ insert m k v

  unfoldable pub remove : HashMap K V → K → HashMap K V
  remove [] k = []
  remove ((j, w) ∷ m) k = let rest = remove m k in if e.beq j k then rest else (j, w) ∷ rest

  pub get-insert :
      (m : HashMap K V) (k j : K) (v : V)
      → get (insert m k v) j ≡ (if e.beq k j then some v else get m j)
  unfolding get insert
  get-insert [] k j v = refl
  get-insert ((i, w) ∷ m) k j v =
      ground
        (arith, e.beq_cong i k j, e.beq_cong k j i, beq_sym i j, beq_sym k i, get-insert m k j v)

  pub get-remove :
      (m : HashMap K V) (k j : K) → get (remove m k) j ≡ (if e.beq k j then none else get m j)
  unfolding get remove
  get-remove [] k j = ground arith
  get-remove ((i, w) ∷ m) k j =
      ground (arith, e.beq_cong i k j, e.beq_cong k j i, beq_sym i j, beq_sym k i, get-remove m k j)

  -- Equal keys read the same value.
  pub get_cong : (m : HashMap K V) (k j : K) → e.beq k j ≡ true → get m k ≡ get m j
  unfolding get
  get_cong [] k j h = refl
  get_cong ((i, w) ∷ m) k j h = ground (
    arith,
    e.beq_cong k j i h,
    beq_sym i k,
    beq_sym i j,
    beq_sym k i,
    beq_sym j i,
    get_cong m k j h,
  )
