-- ===== src/Tests/Tasks.antt =====
-- Two tasks that ask for the handle of one path: the second looks for it after the first stored it.
use arcticwolf.Base.{ℕ, ◌≡◌, refl, some, true, arith}
use native.Mathlib.Decide.{ℕ_discrete}
use arcticwolf.Base.HashMap.{get, insert}
use arcticwolf.Base.Text.{texts_eq, bytes_eq}
use arcticwolf.Fsal.FilePath.{FilePath, path_eq, components}
use arcticwolf.Fsal.Handle.{
  FileHandle, new, new_handle, find_handle, take_id, store_mappings, lookup_path,
}
use arcticwolf.Fsal.Handle.Threads.{
  call, found, absent, number, store, System, pick, Reach, start, later,
}
use arcticwolf.Fsal.Handle.Threads.Safety.{interleaved_resolves, interleaved_lasts}
use arcticwolf.Tests.Samples.{sample_os, export}

abbrev hash : FilePath → ℕ
hash = sample_os.path_hash

abbrev handle : FileHandle
handle = new_handle 1 (hash export)

stored_task : (s : System) × Reach hash 5 s
unfolding ℕ_discrete new find_handle get take_id
stored_task = (
  _,
  later
      (later
        (later (later (later start (pick 0 (call export))) (pick 0 (absent refl)))
          (pick 1 (call export)))
        (pick 0 number))
      (pick 0 store),
)

found_task : (s : System) × Reach hash 6 s
unfolding ℕ_discrete new find_handle get insert take_id store_mappings stored_task path_eq texts_eq
    bytes_eq components
found_task = (_, later stored_task.1 (pick 1 (found {h = handle} refl)))

interleaved_resolves_example :
    (r : FilePath) × (lookup_path handle found_task.0.table ≡ some r)
    × (path_eq r export ≡ true)
    × (path_eq export export ≡ true)
unfolding found_task stored_task take_id new ℕ_discrete
interleaved_resolves_example =
    interleaved_resolves hash 0 1 export export handle found_task.1 (omega arith) refl refl

interleaved_lasts_example : lookup_path handle found_task.0.table ≡ some export
unfolding found_task stored_task take_id new ℕ_discrete lookup_path store_mappings get insert
    bytes_eq new_handle
interleaved_lasts_example =
    interleaved_lasts hash handle export stored_task.1 (pick 1 (found {h = handle} refl))
      (omega arith) refl
