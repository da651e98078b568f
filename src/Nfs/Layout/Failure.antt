-- ===== src/Nfs/Layout/Failure.antt =====
-- No error is answered with the status of success: the ladders of src/nfs that choose a status.
use arcticwolf.Base.{
  ℕ, Bool, true, false, Option, none, some, List, [], ◌∷◌, Error, ErrorKind, ◌≢◌, if◌then◌else◌,
  arith,
}
use arcticwolf.Protocol.Nfs.{Nfsstat3, status_code, Createhow3, exclusive}
use arcticwolf.Protocol.Xdr.{Xdr}
use arcticwolf.Fsal.Filesystem.{Filesystem}
use arcticwolf.Nfs.Change.{create_failure}
use arcticwolf.Nfs.Status.{
  same_kind, by_kind, lookup_status, handle_status, read_status, write_status, setattr_size_status,
  setattr_status, create_status, create_exclusive_status, readlink_status, commit_status,
}

pub record IsFailure (s : Nfsstat3) : Type 0 where
  pub not_ok : status_code s ≢ 0

pub failure : {s : Nfsstat3} → status_code s ≢ 0 → IsFailure s
failure h = record { not_ok = h }

abbrev TableFails : List (ErrorKind × Nfsstat3) → Type 0
TableFails [] = Unit
TableFails ((k, s) ∷ rest) = IsFailure s × TableFails rest

either_fails :
    (b : Bool) (s t : Nfsstat3) → IsFailure s → IsFailure t → IsFailure (if b then s else t)
either_fails true s t hs ht = hs
either_fails false s t hs ht = ht

by_kind-IsFailure :
    (table : List (ErrorKind × Nfsstat3)) (k : Option ErrorKind)
    → TableFails table
    → IsFailure (by_kind table k)
unfolding by_kind
by_kind-IsFailure [] none h = omega arith
by_kind-IsFailure (_ ∷ _) none h = omega arith
by_kind-IsFailure [] (some k) h = omega arith
by_kind-IsFailure ((j, s) ∷ rest) (some k) (h, hs) =
    either_fails (same_kind j k) s _ h (by_kind-IsFailure rest (some k) hs)

module _ (e : Error) where
  pub lookup-IsFailure : IsFailure (lookup_status e)
  unfolding lookup_status
  lookup-IsFailure = search (either_fails, failure, arith)

  pub handle-IsFailure : IsFailure (handle_status e)
  unfolding handle_status
  handle-IsFailure = search (either_fails, failure, arith)

  pub read-IsFailure : IsFailure (read_status e)
  unfolding read_status
  read-IsFailure = search (either_fails, failure, arith)

  pub write-IsFailure : IsFailure (write_status e)
  unfolding write_status
  write-IsFailure = search (either_fails, failure, arith)

  pub setattr_size-IsFailure : IsFailure (setattr_size_status e)
  unfolding setattr_size_status
  setattr_size-IsFailure = search (either_fails, failure, arith)

  pub setattr-IsFailure : IsFailure (setattr_status e)
  unfolding setattr_status
  setattr-IsFailure = search (either_fails, failure, arith)

  pub create-IsFailure :
      (x : Xdr) (F : Filesystem) (xid : ℕ) (how : Createhow3)
      → IsFailure (create_failure x F xid how e)
  unfolding create_failure create_status create_exclusive_status
  create-IsFailure x F xid (exclusive verf) = search (either_fails, failure, arith)
  create-IsFailure x F xid _ = search (either_fails, failure, arith)

  pub readlink-IsFailure : IsFailure (readlink_status e)
  unfolding readlink_status
  readlink-IsFailure = search (either_fails, failure, by_kind-IsFailure, arith)

  pub commit-IsFailure : IsFailure (commit_status e)
  unfolding commit_status
  commit-IsFailure = search (either_fails, failure, arith)
