-- ===== src/Fsal/FilePath.antt =====
-- `std::path` as src/fsal uses it: a path is its bytes, and is compared, hashed and taken apart by
-- its components. A component is the text that `as_os_str` gives it: "/", ".", ".." or a name.
use arcticwolf.Base.{
  ℕ, ◌≡◌, Bool, true, false, ◌&&◌, ◌||◌, Option, none, some, List, [], ◌∷◌, ◌++◌, ◌==◌,
  if◌then◌else◌, ap, refl, arith,
}
use arcticwolf.Base.Text.{Text, codes, bytes_eq, bytes_eq→eq, texts_eq, texts_eq_refl, texts_eq→eq}
use arcticwolf.Base.HashMap.{Eq}

-- A `PathBuf`
pub record FilePath : Type 0 where
  pub os_str : Text

abbrev pub root_dir : Text
root_dir = codes "/"

abbrev pub cur_dir : Text
cur_dir = codes "."

abbrev pub parent_dir : Text
parent_dir = codes ".."

abbrev pub add_head : ℕ → List Text → List Text
add_head c [] = (c ∷ []) ∷ []
add_head c (w ∷ ws) = (c ∷ w) ∷ ws

-- The parts between slashes.
unfoldable pub split : Text → List Text
split [] = [] ∷ []
split (c ∷ cs) = let rest = split cs in if c == b'/' then [] ∷ rest else add_head c rest

unfoldable pub is_absolute : Text → Bool
is_absolute [] = false
is_absolute (c ∷ cs) = c == b'/'

-- Empty parts and dots are no components.
unfoldable pub keep_names : List Text → List Text
keep_names [] = []
keep_names (w ∷ ws) =
    let rest = keep_names ws in if bytes_eq w [] || bytes_eq w cur_dir then rest else w ∷ rest

-- A leading dot of a relative path is one.
unfoldable pub relative : List Text → List Text
unfolding keep_names
relative [] = []
relative (w ∷ ws) = if bytes_eq w cur_dir then w ∷ keep_names ws else keep_names (w ∷ ws)

unfoldable pub components : FilePath → List Text
unfolding split is_absolute keep_names relative
components p =
    if is_absolute p.os_str
    then root_dir ∷ keep_names (split p.os_str)
    else relative (split p.os_str)

-- `==` of `Path`
unfoldable pub path_eq : FilePath → FilePath → Bool
path_eq p q = texts_eq (components p) (components q)

abbrev pub is_list_prefix : List Text → List Text → Bool
is_list_prefix [] ts = true
is_list_prefix (b ∷ bs) [] = false
is_list_prefix (b ∷ bs) (t ∷ ts) = bytes_eq b t && is_list_prefix bs ts

unfoldable pub starts_with : FilePath → FilePath → Bool
unfolding components
starts_with p base = is_list_prefix (components base) (components p)

abbrev ends_with_slash : Text → Bool
ends_with_slash [] = false
ends_with_slash (c ∷ []) = c == b'/'
ends_with_slash (c ∷ d ∷ cs) = ends_with_slash (d ∷ cs)

-- An absolute name replaces the path, and an empty or slash-ended path gets no separator.
unfoldable pub join : FilePath → Text → FilePath
unfolding is_absolute
join p name = record {
  os_str =
      if is_absolute name
      then name
      else if bytes_eq p.os_str [] || ends_with_slash p.os_str
      then p.os_str ++ name
      else p.os_str ++ (root_dir ++ name);
}

unfoldable pub split_last : List Text → Option (List Text × Text)
split_last [] = none
split_last (t ∷ ts) = elim (split_last ts) [
  | none ↦ some ([], t)
  | some (init, last) ↦ some (t ∷ init, last)
]

abbrev intercalate : List Text → Text
intercalate [] = []
intercalate (t ∷ []) = t
intercalate (t ∷ u ∷ ts) = t ++ (root_dir ++ intercalate (u ∷ ts))

unfoldable pub of_components : List Text → Text
of_components [] = []
of_components (t ∷ ts) =
    if bytes_eq t root_dir then root_dir ++ intercalate ts else intercalate (t ∷ ts)

-- All but the last component, unless that is the root. Repeated slashes are not kept.
unfoldable pub parent : FilePath → Option FilePath
unfolding components split_last of_components
parent p = elim (split_last (components p)) [
  | none ↦ none
  | some (init, last) ↦
      if bytes_eq last root_dir then none else some (record { os_str = of_components init })
]

-- The last component, if it is a name.
unfoldable pub file_name : FilePath → Option Text
unfolding components split_last
file_name p = elim (split_last (components p)) [
  | none ↦ none
  | some (_, last) ↦
      if bytes_eq last root_dir || bytes_eq last cur_dir || bytes_eq last parent_dir
      then none
      else some last
]

pub path_eq_cong : (p q r : FilePath) → path_eq p q ≡ true → path_eq p r ≡ path_eq q r
unfolding path_eq
path_eq_cong p q r h =
    ap (λ cs. texts_eq cs (components r)) (texts_eq→eq (components p) (components q) h)

pub path_eq_refl : (p : FilePath) → path_eq p p ≡ true
unfolding path_eq
path_eq_refl p = texts_eq_refl (components p)

instance abbrev pub path_key : Eq FilePath
path_key = record { beq = path_eq; beq_refl = path_eq_refl; beq_cong = path_eq_cong }

is_list_prefix-append :
    (bs ts : List Text) → is_list_prefix bs ts ≡ true → (rest : List Text) × (ts ≡ bs ++ rest)
is_list_prefix-append [] ts h = (ts, refl)
is_list_prefix-append (b ∷ bs) [] h = absurd (cc)
is_list_prefix-append (b ∷ bs) (t ∷ ts) h =
    let (rest, e) = is_list_prefix-append bs ts (ground (arith, h)) in
    (rest, ground (arith, h, e, bytes_eq→eq b t))

-- A path that starts with another has its components, and then others.
pub starts_with-components :
    (p base : FilePath)
    → starts_with p base ≡ true
    → (rest : List Text) × (components p ≡ components base ++ rest)
unfolding starts_with
starts_with-components p base h = is_list_prefix-append (components base) (components p) h
