-- ===== src/Tests/Build.antt =====
-- The rewriting of generated code, at an enum that derives `Copy`.
use mathlib.Core.List.{Memᴰ}
use arcticwolf.Base.{◌≡◌, refl, false, true, ◌++◌}
use arcticwolf.Base.Text.{Text, codes, contains, is_prefix}
use arcticwolf.Build.{derives_copy, derives_clone, rewritten}
use arcticwolf.Build.Enums.{rewritten_lem}

abbrev generated : Text
generated = codes "use std; " ++ (derives_copy (codes "FSINFO3res") ++ codes " { NFS3_OK }")

derives : contains generated (derives_copy (codes "FSINFO3res")) ≡ true
unfolding contains is_prefix
derives = refl

rewritten_lem_example :
    (contains (rewritten (codes "nfs.x") generated) (derives_clone (codes "FSINFO3res")) ≡ true)
    × (contains (rewritten (codes "nfs.x") generated) (derives_copy (codes "FSINFO3res")) ≡ false)
rewritten_lem_example =
    rewritten_lem (codes "FSINFO3res") generated (Memᴰ.tail (Memᴰ.head refl)) derives
