-- ===== src/Fsal/Local/Paging.antt =====
-- READDIR page by page against the whole listing.
use arcticwolf.Base.{
  ℕ, zero, suc, ◌+◌, ◌-◌, ◌≤◌, ◌<◌, ◌≡◌, refl, sym, ap, ◌∙◌, inl, inr, Bool, true, false, List, [],
  ◌∷◌, ◌++◌, append_assoc, append-nil, length, length-append, drop-nil, drop_add, take-drop,
  length-map, drop-map, length-take, length-drop, bind, take, drop, map, Result, ok, ltb, ltb→lt,
  ltb→le, if◌then◌else◌, arith, Bool-cases,
}
use arcticwolf.Base.Text.{Text}
use arcticwolf.Fsal.FilePath.{FilePath}
use arcticwolf.Fsal.Types.{DirEntry}
use arcticwolf.Fsal.Os.{Os, OsDirEntry, Metadata}
use arcticwolf.Fsal.Local.Attributes.{file_type_of}
use arcticwolf.Fsal.Local.Operations.{readdir_loop}

-- What the disk lists: a name and its metadata, all of them readable.
abbrev pub Listing : Type 0
Listing = List (Text × Metadata)

abbrev pub on_os : Listing → List (Result OsDirEntry)
on_os [] = []
on_os ((name, metadata) ∷ rest) =
    ok (record { file_name = name; metadata = ok metadata }) ∷ on_os rest

abbrev pub entry_of : Text × Metadata → DirEntry
entry_of (name, metadata) = record {
  fileid = metadata.ino;
  name = name;
  file_type = file_type_of metadata.file_type;
}

-- A page of `count` entries of those left, and whether it comes to their end.
unfoldable pub page : ℕ → Listing → List DirEntry × Bool
page count left =
    if ltb (length left) count
    then (map entry_of left, true)
    else (take count (map entry_of left), false)

page_cons :
    (k : ℕ) (e : Text × Metadata) (left : Listing)
    → page (suc (suc k)) (e ∷ left) ≡ (entry_of e ∷ (page (suc k) left).0, (page (suc k) left).1)
unfolding page
page_cons k e left = ground arith

module _ (O : Os) (dir_path : FilePath) where
  -- Once the cookie is passed, entries are taken until there are `count` of them.
  collect :
      (left : Listing) (k cookie count index : ℕ) (entries : List DirEntry)
      → cookie ≤ index
      → length entries + suc k ≡ count
      → readdir_loop O dir_path cookie count index entries (on_os left)
        ≡ ok (entries ++ (page (suc k) left).0, (page (suc k) left).1)
  unfolding readdir_loop page
  collect [] k cookie count index entries past room = ground (arith, append-nil entries)
  collect (e ∷ left) zero cookie count index entries past room =
      let len = length-append entries (entry_of e ∷ []) in ground (arith, len)
  collect (e ∷ left) (suc k) cookie count index entries past room =
      let len = length-append entries (entry_of e ∷ []) in
      let rest =
        collect left k cookie count (suc index) (entries ++ (entry_of e ∷ [])) (omega arith)
          (omega arith) in
      ground (
        arith,
        len,
        rest,
        page_cons k e left,
        append_assoc entries (entry_of e ∷ []) (page (suc k) left).0,
      )

  skip :
      (left : Listing) (k cookie index : ℕ)
      → index ≤ cookie
      → readdir_loop O dir_path cookie (suc k) index [] (on_os left)
        ≡ ok (page (suc k) (drop (cookie - index) left))
  unfolding readdir_loop page
  skip [] k cookie index before = rw (drop-nil (cookie - index)) (ground arith)
  skip (e ∷ left) k cookie index before = elim (Bool-cases (ltb index cookie)) [
    | inl more ↦
        let below = ltb→lt index cookie more in
        let rest = skip left k cookie (suc index) (omega arith) in
        let less : cookie - index ≡ suc (cookie - suc index) = omega arith in
        rw (less, readdir_loop) (ground (arith, rest))
    | inr done ↦
        let past = ltb→le index cookie done in
        let none_left : cookie - index ≡ 0 = omega arith in
        collect (e ∷ left) k cookie (suc k) index [] (omega arith) (omega arith)
        ∙ ap (λ n. ok (page (suc k) (drop n (e ∷ left)))) (sym none_left)
  ]

  pub readdir_loop-eq_page :
      (listing : Listing) (cookie count : ℕ)
      → 1 ≤ count
      → readdir_loop O dir_path cookie count 0 [] (on_os listing)
        ≡ ok (page count (drop cookie listing))
  readdir_loop-eq_page listing cookie zero some_count = absurd (omega arith)
  readdir_loop-eq_page listing cookie (suc k) some_count =
      let start : cookie - 0 ≡ cookie = omega arith in
      skip listing k cookie 0 (omega arith) ∙ ap (λ n. ok (page (suc k) (drop n listing))) start

  -- A client that asks for pages of `count` entries, each from the last cookie of the one before,
  -- until the end is reached.
  unfoldable pub walk : ℕ → ℕ → ℕ → Listing → Result (List DirEntry)
  walk zero cookie count listing = ok []
  walk (suc fuel) cookie count listing =
      bind (readdir_loop O dir_path cookie count 0 [] (on_os listing)) λ (entries, eof).
        let rest = walk fuel (cookie + length entries) count listing in
        if eof then ok entries else bind rest (λ more. ok (entries ++ more))

  walk_lem :
      (fuel cookie count : ℕ) (listing : Listing)
      → 1 ≤ count
      → length (drop cookie listing) < fuel
      → walk fuel cookie count listing ≡ ok (map entry_of (drop cookie listing))
  unfolding walk page
  walk_lem zero cookie count listing some_count enough = absurd (omega arith)
  walk_lem (suc fuel) cookie count listing some_count enough =
      let left = drop cookie listing in
      let now = readdir_loop-eq_page listing cookie count some_count in
      elim (Bool-cases (ltb (length left) count)) [
        | inl short ↦ rw (now, walk) (rw short refl)
        | inr long ↦
            let more = walk_lem fuel (cookie + count) count listing some_count (
              omega (
                arith,
                length-drop cookie listing,
                length-drop (cookie + count) listing,
                ltb→le (length left) count long,
              )) in
            let taken : length (take count (map entry_of left)) ≡ count =
              ground (arith, length-take count (map entry_of left), length-map entry_of left) in
            rw (now, walk)
              (rw long (
                rw taken (
                  rw more (
                    ap (λ t. ok (take count (map entry_of left) ++ t))
                      (ap (map entry_of) (drop_add cookie count listing)
                        ∙ sym (drop-map entry_of count left))
                    ∙ ap ok (take-drop count (map entry_of left))))))
      ]

  -- Where every entry can be read, a client that asks for pages of any positive size, each from
  -- the last cookie of the one before, gets every entry of the directory once and in order.
  pub walk_complete :
      (count : ℕ) (listing : Listing)
      → 1 ≤ count
      → walk (suc (length listing)) 0 count listing ≡ ok (map entry_of listing)
  walk_complete count listing some_count =
      walk_lem (suc (length listing)) 0 count listing some_count (omega arith)
