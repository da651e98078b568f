-- ===== src/Tests/Disk.antt =====
-- A disk of one file, whose contents and position are the state, under every path.
use arcticwolf.Base.{
  ◌⊎◌, sym, ◌∙◌, length-take, length-drop, take-length, ℕ, ◌+◌, ◌*◌, ◌≤◌, ◌<◌, ◌≡◌, refl, ap, true,
  some, [], ◌∷◌, length, take, drop, ok, pure, fail, anyhow, arith, M, err, if◌then◌else◌,
}
use arcticwolf.Base.Text.{Bytes, codes, bytes_eq}
use arcticwolf.Fsal.FilePath.{FilePath}
use arcticwolf.Fsal.Os.{Os}
use arcticwolf.Fsal.Handle.{FileHandle, new, create_handle, lookup_path}
use arcticwolf.Fsal.Handle
use arcticwolf.Base.HashMap.{get, insert}
use arcticwolf.Fsal.Local.{Local, resolve_handle}
use arcticwolf.Fsal.Local.Operations.{read, write, getattr}
use arcticwolf.Fsal.Local.Contents.{overwrite, IsDisk, IsRead}
use arcticwolf.Fsal.Local.Attributes.{metadata_to_attr}
use arcticwolf.Fsal.Local.Backend.{local_filesystem}
use arcticwolf.Protocol.Xdr.{Xdr}
use arcticwolf.Nfs.Query.{handle_read}
use arcticwolf.Nfs.Change.{handle_write}
use arcticwolf.Nfs.Contents.{read_reply, handle_read-handle_write}
use arcticwolf.Tests.Samples.{metadata_of, export, sample_xdr, write_of}

abbrev unsupported : {A : Type 0} → M (Bytes × ℕ) A
unsupported = fail (anyhow (codes "not supported"))

abbrev tape : Os
tape = record {
  State = Bytes × ℕ;
  File = FilePath;
  exists = λ s p. true;
  canonicalize = λ s p. ok p;
  metadata = λ s p. ok (metadata_of 1);
  symlink_metadata = λ s p. ok (metadata_of 1);
  read_link = λ s p. err (anyhow (codes "not a link"));
  read_dir = λ s p. ok [];
  open_file = λ o p s. ((if o.truncate then [] else s.0, 0), ok p);
  seek = λ f k s. ((s.0, k), ok tt);
  read = λ f n s. let b = take n (drop s.1 s.0) in ((s.0, s.1 + length b), ok b);
  write = λ f b s. ((overwrite s.0 s.1 b, s.1 + length b), ok (length b));
  sync_all = λ f. pure tt;
  set_len = λ f n. unsupported;
  file_set_permissions = λ f m. pure tt;
  set_permissions = λ p m. pure tt;
  remove_file = λ p. unsupported;
  create_dir = λ p. unsupported;
  remove_dir = λ p. unsupported;
  rename = λ p q. unsupported;
  symlink = λ t p. unsupported;
  hard_link = λ p q. unsupported;
  mkfifo = λ p m. unsupported;
  mknod = λ p m d. unsupported;
  debug_path = λ p. p.os_str;
  path_hash = λ p. length p.os_str;
  makedev = λ a b. a * 256 + b;
}

-- A read that gives all that is there.
pub IsRead-whole : (n k : ℕ) (b : Bytes) {c : Bytes} → b ≡ take n (drop k c) → IsRead c k n b
IsRead-whole n k b {c} e =
    let size = ap length e ∙ length-take n (drop k c) in
    let there = length-drop k c in
    record {
      few = omega (arith, size);
      part = e ∙ sym (ap (λ m. take m (drop k c)) (ap length e) ∙ take-length n (drop k c));
      some_of = omega (arith, size, there);
    }

pub take_all : (b : Bytes) → take (length b) b ≡ b
take_all [] = refl
take_all (n ∷ b) = ap (λ c. n ∷ c) (take_all b)

tape_disk : IsDisk tape
tape_disk = record {
  contents = λ s p. some s.0;
  position = λ s f. some (f, s.1);
  open_lem = λ o p s f c kept has e. (ground arith, ground (arith));
  seek_lem = λ f k s p j c at has e. (has, ground arith);
  read_lem = λ f n s p k c b at has e. IsRead-whole n k b {c = c} (ground (arith, e, at, has));
  write_lem = λ f b s p k c n at has e. (ground arith, ground (arith, take_all b));
  sync_lem = λ f s p c has e. has;
}

abbrev opened : Local tape
opened =
    let (manager, handle) = create_handle tape.path_hash export new in
    record {
      root_path = export;
      handle_manager = manager;
      root_handle = handle;
      disk = (1 ∷ 2 ∷ 3 ∷ [], 0);
    }

-- The codec of the samples, with READ of one byte.
abbrev tape_xdr : Xdr
tape_xdr = record sample_xdr {
  unpack_read3args = λ b. ok (record { file = b; offset = 0; count = 1 });
}

-- The byte 1 is written over the first of three.
handle_read-handle_write_example :
    ((handle_read tape_xdr
        (local_filesystem tape)
        8
        opened.root_handle
        (handle_write tape_xdr (local_filesystem tape) 7 opened.root_handle opened).0).1
      ≡ read_reply tape_xdr 8 0 (metadata_to_attr (metadata_of 1)) (1 ∷ []))
    × (1 ≤ 1)
    × ((◌≡◌ {A = ℕ} 1 0) ⊎ (0 < 1))
unfolding resolve_handle lookup_path create_handle new get insert Handle.find_handle Handle.take_id
    Handle.store_mappings bytes_eq write read getattr handle_write Handle.new_handle tape_disk
handle_read-handle_write_example =
    handle_read-handle_write tape_xdr tape tape_disk 7 8 opened.root_handle opened.root_handle
      (write_of opened.root_handle) opened
      (handle_write tape_xdr (local_filesystem tape) 7 opened.root_handle opened).0 export
      (1 ∷ 2 ∷ 3 ∷ []) 1 (1 ∷ []) (metadata_to_attr (metadata_of 1)) (omega arith) refl refl refl
      refl refl refl refl refl
