-- ===== src/Tests/Handles.antt =====
-- The handle table at two files.
use arcticwolf.Base.{ℕ, ◌≡◌, refl, ◌⊎◌, ◌↔◌, true, none, some, List, [], ◌∷◌, length, arith, ◌≢◌}
use arcticwolf.Base.Text.{codes, bytes_eq, texts_eq}
use arcticwolf.Base.HashMap.{get, insert}
use arcticwolf.Fsal.FilePath.{FilePath, path_eq, components}
use arcticwolf.Fsal.Handle.{
  FileHandle, HandleManager, new, create_handle, lookup_path, new_handle, find_handle, take_id,
}
use arcticwolf.Fsal.Handle.Threads.{missing, returned, number, store}
use arcticwolf.Fsal.Handle.Threads.Race.{Race, ready, first, second, raced_apart}
use arcticwolf.Fsal.Handle.Ids.{id_of}
use arcticwolf.Fsal.Handle.Invariant.{IsValid, new-IsValid}
use arcticwolf.Fsal.Handle.Laws.{create_handle_resolves, create_handle-eq_iff}
use arcticwolf.Fsal.Handle.History.{Op, create, remove, run, run-IsValid, lookup_path-run}

abbrev hash : FilePath → ℕ
hash p = length p.os_str

abbrev a : FilePath
a = record { os_str = codes "/export/a" }

-- The same path, spelled otherwise.
abbrev a_again : FilePath
a_again = record { os_str = codes "/export//a/" }

abbrev b : FilePath
b = record { os_str = codes "/export/b" }

abbrev h : FileHandle
h = new_handle 1 9

abbrev m : HandleManager
m = (create_handle hash a new).0

m-IsValid : IsValid m
unfolding run new
m-IsValid = run-IsValid hash (create a ∷ []) new (omega arith) new-IsValid

abbrev ops : List Op
ops = create b ∷ remove h ∷ create a ∷ []

lookup_path-run_example :
    (lookup_path h (run hash ops m) ≡ lookup_path h m) ⊎ (lookup_path h (run hash ops m) ≡ none)
unfolding create_handle new_handle id_of get new
lookup_path-run_example = lookup_path-run hash ops m h (omega arith) m-IsValid (omega arith)

run-IsValid_example : IsValid (run hash ops new)
unfolding new
run-IsValid_example = run-IsValid hash ops new (omega arith) new-IsValid

create_handle-eq_iff_example :
    ((create_handle hash a_again (create_handle hash a m).0).1 ≡ (create_handle hash a m).1)
    ↔ (path_eq a a_again ≡ true)
unfolding create_handle get new
create_handle-eq_iff_example = create_handle-eq_iff hash a a_again m m-IsValid (omega arith)

create_handle_resolves_example :
    (q : FilePath) × (lookup_path (create_handle hash b m).1 (create_handle hash b m).0 ≡ some q)
    × (path_eq q b ≡ true)
create_handle_resolves_example = create_handle_resolves hash b m m-IsValid

abbrev first_handle : FileHandle
first_handle = new_handle 2 (hash b)

abbrev second_handle : FileHandle
second_handle = new_handle 3 (hash b)

-- The second task takes its id last and stores its handle first.
crossed :
    (m' : HandleManager) × Race hash m
      (missing b)
      (missing b)
      m'
      (returned b first_handle)
      (returned b second_handle)
unfolding create_handle get new take_id insert
crossed = (
  _,
  first (second (second (first ready number (λ e. cc)) number (λ e. cc)) store (λ e. cc)) store
      (λ e. cc),
)

raced_apart_example :
    let m' = crossed.0 in
    (first_handle ≢ second_handle)
    × (lookup_path first_handle m' ≡ some b)
    × (lookup_path second_handle m' ≡ some b)
    × ((find_handle b m' ≡ some first_handle) ⊎ (find_handle b m' ≡ some second_handle))
    × (¬ IsValid m')
unfolding create_handle get new path_eq texts_eq components bytes_eq
raced_apart_example =
    raced_apart b b m crossed.0 first_handle second_handle refl (omega arith) crossed.1
