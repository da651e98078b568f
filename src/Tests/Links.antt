-- ===== src/Tests/Links.antt =====
-- A disk of one file outside the export root, and a link to it that a client makes.
use arcticwolf.Base.{
  ℕ, Option, ◌+◌, refl, none, some, [], ◌∷◌, length, take, drop, ok, pure, anyhow, arith, err,
  if◌then◌else◌, List,
}
use arcticwolf.Base.Text.{Bytes, codes, bytes_eq, contains, is_prefix, texts_eq}
use arcticwolf.Fsal.FilePath.{
  path_eq_refl, FilePath, path_eq, join, components, parent, starts_with, file_name, is_absolute,
}
use arcticwolf.Fsal.Os.{Os}
use arcticwolf.Fsal.Handle.{FileHandle, new, create_handle, lookup_path}
use arcticwolf.Fsal.Handle
use arcticwolf.Base.HashMap.{get, insert}
use arcticwolf.Fsal.Local.{
  Local, resolve_handle, checked_path, is_unsafe_name, validate_path, canonical_form,
}
use arcticwolf.Fsal.Local.Operations.{read, symlink}
use arcticwolf.Fsal.Local.Contents.{overwrite, IsDisk, IsRead}
use arcticwolf.Fsal.Local.Escape.{FollowsLinks, read-symlink}
use arcticwolf.Tests.Disk.{take_all, IsRead-whole}
use arcticwolf.Tests.Samples.{metadata_of, export, holds}

-- The paths that reach the file, what it holds, and the position of the file that is open.
record Disk : Type 0 where
  reach : List FilePath
  bytes : Bytes
  position : ℕ

abbrev linking : Os
linking = record {
  State = Disk;
  File = FilePath;
  exists = λ s p. path_eq export p;
  canonicalize = λ s p. ok p;
  metadata = λ s p. ok (metadata_of 1);
  symlink_metadata = λ s p. ok (metadata_of 1);
  read_link = λ s p. err (anyhow (codes "not a link"));
  read_dir = λ s p. ok [];
  open_file = λ o p s. (
    record s { bytes = if o.truncate then [] else s.bytes; position = 0 },
    if holds s.reach p then ok p else err (anyhow (codes "No such file")),
  );
  seek = λ f k s. (record s { position = k }, ok tt);
  read = λ f n s.
      let b = take n (drop s.position s.bytes) in
      (record s { position = s.position + length b }, ok b);
  write = λ f b s. (
    record s { bytes = overwrite s.bytes s.position b; position = s.position + length b },
    ok (length b),
  );
  sync_all = λ f. pure tt;
  set_len = λ f n. pure tt;
  file_set_permissions = λ f m. pure tt;
  set_permissions = λ p m. pure tt;
  remove_file = λ p. pure tt;
  create_dir = λ p. pure tt;
  remove_dir = λ p. pure tt;
  rename = λ p q. pure tt;
  symlink = λ t p s. (
    record s { reach = if holds s.reach (record { os_str = t }) then p ∷ s.reach else s.reach },
    ok tt,
  );
  hard_link = λ p q. pure tt;
  mkfifo = λ p m. pure tt;
  mknod = λ p m d. pure tt;
  debug_path = λ p. p.os_str;
  path_hash = λ p. length p.os_str;
  makedev = λ a b. a + b;
}

abbrev contents_at : Disk → FilePath → Option Bytes
contents_at s p = if holds s.reach p then some s.bytes else none

linking_disk : IsDisk linking
linking_disk = record {
  contents = contents_at;
  position = λ s f. some (f, s.position);
  open_lem = λ o p s f c kept has e. (ground (arith, kept, has), ground (arith, e));
  seek_lem = λ f k s p j c at has e. (has, ground (arith, at));
  read_lem = λ f n s p k c b at has e. IsRead-whole n k b {c = c} (ground (arith, e, at, has));
  write_lem = λ f b s p k c n at has e. (ground (arith, e), ground (arith, at, has, e, take_all b));
  sync_lem = λ f s p c has e. has;
}

linking_follows : FollowsLinks linking linking_disk
unfolding linking_disk
linking_follows = record {
  link_lem = λ t p s c absolute made has. ground (arith, has, path_eq_refl p);
}

abbrev secret : FilePath
secret = record { os_str = codes "/etc/secret" }

abbrev shared : Local linking
shared =
    let (manager, handle) = create_handle linking.path_hash export new in
    record {
      root_path = export;
      handle_manager = manager;
      root_handle = handle;
      disk = record { reach = secret ∷ []; bytes = 5 ∷ 6 ∷ 7 ∷ []; position = 0 };
    }

abbrev link : FileHandle
link = (create_handle linking.path_hash (join export (codes "a")) shared.handle_manager).1

-- Two bytes of the file, read from the second on.
read-symlink_example : IsRead (5 ∷ 6 ∷ 7 ∷ []) 1 2 (6 ∷ 7 ∷ [])
unfolding symlink read resolve_handle lookup_path create_handle new get insert path_eq texts_eq
    components join bytes_eq checked_path is_prefix parent starts_with file_name is_unsafe_name
    validate_path canonical_form contains is_absolute Handle.new_handle Handle.find_handle
    Handle.take_id Handle.store_mappings linking_disk
read-symlink_example =
    read-symlink linking linking_disk linking_follows shared.root_handle (codes "a") secret.os_str
      shared export link (5 ∷ 6 ∷ 7 ∷ []) (6 ∷ 7 ∷ []) 1 2 refl refl refl refl refl refl
