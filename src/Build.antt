-- ===== src/Build.antt =====
-- build.rs: the code that xdrgen makes of each specification is written to a file, and that of
-- nfs.x is rewritten before.
pub mod Replace
pub mod Enums
use arcticwolf.Base.{
  ℕ, zero, suc, ◌-◌, Bool, true, false, not, Option, none, some, List, [], ◌∷◌, ◌++◌, length, M,
  pure, fail, lift, ◌>>=◌, ◌>>◌, anyhow, Result, ok, err, if◌then◌else◌,
}
use arcticwolf.Base.Text.{Text, Bytes, codes, bytes_eq, is_prefix}

-- `replace` of `str` for a pattern that is not empty, from the left; `skip` characters still belong
-- to a match.
unfoldable pub replace_from : Text → Text → (skip : ℕ) → Text → Text
replace_from pattern_text new skip [] = []
replace_from pattern_text new (suc skip) (c ∷ cs) = replace_from pattern_text new skip cs
replace_from pattern_text new zero (c ∷ cs) =
    let kept = replace_from pattern_text new zero cs in
    let matched = replace_from pattern_text new (length pattern_text - 1) cs in
    if is_prefix pattern_text (c ∷ cs) then new ++ matched else c ∷ kept

abbrev pub replace : Text → Text → Text → Text
replace pattern_text new text = replace_from pattern_text new 0 text

abbrev pub derives_copy : Text → Text
derives_copy name = codes "#[derive( Copy , Clone , Debug , Eq , PartialEq )] pub enum " ++ name

abbrev pub derives_clone : Text → Text
derives_clone name = codes "#[derive( Clone , Debug , Eq , PartialEq )] pub enum " ++ name

-- The enums whose `Copy` is taken away, in the order of the source.
abbrev pub boxed_enums : List Text
boxed_enums =
    codes "ACCESS3res"
    ∷ codes "FSINFO3res"
    ∷ codes "FSSTAT3res"
    ∷ codes "PATHCONF3res"
    ∷ codes "WRITE3res"
    ∷ codes "SETATTR3res"
    ∷ codes "CREATE3res"
    ∷ codes "REMOVE3res"
    ∷ codes "MKDIR3res"
    ∷ codes "RMDIR3res"
    ∷ codes "RENAME3res"
    ∷ codes "READLINK3res"
    ∷ codes "SYMLINK3res"
    ∷ codes "LINK3res"
    ∷ codes "COMMIT3res"
    ∷ codes "MKNOD3res"
    ∷ []

-- One `replace` for each enum.
unfoldable pub remove_copy : List Text → Text → Text
unfolding replace_from
remove_copy [] code = code
remove_copy (name ∷ names) code =
    remove_copy names (replace (derives_copy name) (derives_clone name) code)

-- `std::process::Output`
pub record Output : Type 0 where
  pub success : Bool
  pub stdout : Bytes
  pub stderr : Text

-- xdrgen, `String::from_utf8` and the files of the output directory. `has_xdrgen` is whether
-- `xdrgen --version` can be run.
pub record Tools : Type 1 where
  pub State : Type 0
  pub has_xdrgen : Bool
  pub xdrgen : Text → Result Output
  pub from_utf8 : Bytes → Option Text
  pub write_file : Text → Text → M State (Unit {0})

abbrev pub xdr_specs : List (Text × Text)
xdr_specs =
    (codes "rpc.x", codes "rpc_generated.rs")
    ∷ (codes "portmap.x", codes "portmap_generated.rs")
    ∷ (codes "mount.x", codes "mount_generated.rs")
    ∷ (codes "nfs.x", codes "nfs_generated.rs")
    ∷ []

-- What is written for a specification.
unfoldable pub rewritten : Text → Text → Text
unfolding remove_copy
rewritten spec_file generated_code =
    if bytes_eq spec_file (codes "nfs.x")
    then remove_copy boxed_enums generated_code
    else generated_code

module _ (T : Tools) where
  -- A panic is an error, and ends the build.
  unfoldable pub compile_spec : Text × Text → M T.State (Unit {0})
  unfolding rewritten
  compile_spec (spec_file, output_file) = do
    output ← lift (T.xdrgen (codes "xdr/v3/" ++ spec_file))
    if not output.success
        then fail
            (anyhow (codes "xdrgen failed for " ++ (spec_file ++ (codes ": " ++ output.stderr))))
        else elim (T.from_utf8 output.stdout) [
          | none ↦ fail (anyhow (codes "Invalid UTF-8 in generated code"))
          | some generated_code ↦ T.write_file output_file (rewritten spec_file generated_code)
        ]

  unfoldable pub compile_specs : List (Text × Text) → M T.State (Unit {0})
  unfolding compile_spec
  compile_specs [] = pure tt
  compile_specs (spec ∷ specs) = let rest = compile_specs specs in compile_spec spec >> rest

  unfoldable pub build_main : M T.State (Unit {0})
  unfolding compile_specs
  build_main =
      if not T.has_xdrgen
      then fail (anyhow (codes "xdrgen is required for build"))
      else compile_specs xdr_specs
