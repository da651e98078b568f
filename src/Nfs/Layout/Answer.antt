-- ===== src/Nfs/Layout/Answer.antt =====
-- A reply whose result is laid out as the procedure's is: the header of a success reply, and a body
-- that is read as a result with nothing left over.
use arcticwolf.Base.{
  ℕ, ◌^◌, ◌<◌, ◌≡◌, refl, sym, ap, ◌∙◌, some, List, [], ◌∷◌, ◌++◌, append-nil, length, Result, ok,
  err, bind, arith,
}
use arcticwolf.Base.Returns.{Returns, Returns-fail}
use arcticwolf.Base.Text.{Bytes, Text}
use arcticwolf.Fsal.Types.{FileType}
use arcticwolf.Fsal.Filesystem.{Filesystem}
use arcticwolf.Fsal.Handle.{FileHandle}
use arcticwolf.Base.Words.{be32}
use arcticwolf.Protocol.Nfs.{Nfsstat3, status_code, Fattr3}
use arcticwolf.Protocol.Rpc.{success}
use arcticwolf.Protocol.Xdr.{Xdr, IsXdr, reply_header, pack_all}
use arcticwolf.Rpc.Message.{
  accepted_reply, create_success_reply_with_data, create_null_reply, serialize_reply,
}
use arcticwolf.Nfs.Wire.{
  pack_status, reply_with, create_bare_error_response, create_attr_error_response,
  create_wcc_error_response,
}
use arcticwolf.Nfs.Layout.Failure.{IsFailure}
use arcticwolf.Nfs.Layout.{Layout, done, result, fattr3, post_op_attr, wcc_data, skip}
use arcticwolf.Nfs.Layout.Parts.{IsSized, Makes, Makes-done}
use arcticwolf.Nfs.Layout.Values.{Makes-absent, Makes-failed, Makes-getattr3res, status_code-lt}
use arcticwolf.Nfs.Replies.{header_lem}

pub record IsLaidOut (xid : ℕ) (l : Layout) (bytes : Bytes) : Type 0 where
  pub body : Bytes
  pub behind_header : bytes ≡ reply_header (accepted_reply xid success) ++ body
  pub read_whole : skip l body ≡ some []

pub record IsBareFailure (xid : ℕ) (bytes : Bytes) : Type 0 where
  pub status : Nfsstat3
  pub fails : IsFailure status
  pub alone : bytes ≡ reply_header (accepted_reply xid success) ++ be32 (status_code status)

module _ (x : Xdr) (lawful : IsXdr x) {xid : ℕ} (small : xid < 2 ^ 32) where
  laid_body :
      {S : Type 0} {l : Layout} (s : S) (r : Result Bytes)
      → ((b : Bytes) → r ≡ ok b → skip l b ≡ some [])
      → Returns (IsLaidOut xid l) (s, bind r (create_success_reply_with_data x xid))
  unfolding create_success_reply_with_data
  laid_body s (ok b) made = record {
    result_of = λ bytes e. record {
      body = b;
      behind_header = ground (arith, e, header_lem x lawful small);
      read_whole = made b refl;
    };
  }
  laid_body s (err f) made = Returns-fail s f

  pub laid_answer :
      {S : Type 0} {l : Layout} {s : S} {parts : List (Result Bytes)}
      → Makes l parts
      → Returns (IsLaidOut xid l) (s, bind (pack_all parts) (create_success_reply_with_data x xid))
  laid_answer {l} {s} {parts} m =
      laid_body s (pack_all parts) (λ b e. ap (skip l) (sym (append-nil b)) ∙ m.read_back b [] e)

  pub laid_reply :
      {S : Type 0} {l : Layout} {s : S} {parts : List (Result Bytes)}
      → Makes l parts
      → Returns (IsLaidOut xid l) (s, reply_with x xid parts)
  unfolding reply_with
  laid_reply m = laid_answer m

  pub laid_null :
      {S : Type 0} (s : S)
      → Returns (IsLaidOut xid done) (s, serialize_reply x (create_null_reply xid))
  unfolding skip
  laid_null s = record {
    result_of = λ bytes e. record {
      body = [];
      behind_header = ground (
        arith,
        e,
        header_lem x lawful small,
        append-nil (reply_header (accepted_reply xid success)),
      );
      read_whole = refl;
    };
  }

  pub laid_getattr :
      {S : Type 0} {b : Layout} (s : S) (a : Fattr3)
      → IsSized x
      → Returns
          (IsLaidOut xid (result (fattr3 done) b))
          (s, bind (x.pack_getattr3res a) (create_success_reply_with_data x xid))
  laid_getattr {b} s a sized = laid_body s (x.pack_getattr3res a) λ bytes e.
      let alone : pack_all (x.pack_getattr3res a ∷ []) ≡ ok bytes =
        ap (λ t. pack_all (t ∷ [])) e ∙ ap ok (append-nil bytes) in
      ap (skip (result (fattr3 done) b)) (sym (append-nil bytes))
      ∙ (Makes-getattr3res x sized {b = b} a).read_back bytes [] alone

-- A file's contents, a link's target and a handle have fewer than 2 ^ 32 bytes, in the states
-- that have a property, and a READ asks for fewer.
pub record IsBounded (F : Filesystem) (P : F.State → Type 0) : Type 0 where
  pub read :
      (h : FileHandle) (o c : ℕ) (s : F.State) (b : Bytes)
      → c < 2 ^ 32
      → P s
      → (F.read h o c s).1 ≡ ok b
      → length b < 2 ^ 32
  pub readlink :
      (h : FileHandle) (s : F.State) (t : Text)
      → P s
      → (F.readlink h s).1 ≡ ok t
      → length t < 2 ^ 32
  pub create :
      (h : FileHandle) (n : Text) (m : ℕ) (s : F.State) (b : Bytes)
      → P s
      → (F.create h n m s).1 ≡ ok b
      → length b < 2 ^ 32
  pub mkdir :
      (h : FileHandle) (n : Text) (m : ℕ) (s : F.State) (b : Bytes)
      → P s
      → (F.mkdir h n m s).1 ≡ ok b
      → length b < 2 ^ 32
  pub symlink :
      (h : FileHandle) (n t : Text) (s : F.State) (b : Bytes)
      → P s
      → (F.symlink h n t s).1 ≡ ok b
      → length b < 2 ^ 32
  pub mknod :
      (h : FileHandle) (n : Text) (t : FileType) (m : ℕ) (d : ℕ × ℕ) (s : F.State) (b : Bytes)
      → P s
      → (F.mknod h n t m d s).1 ≡ ok b
      → length b < 2 ^ 32

-- The responses to errors, which `NfsMessage` makes.
module _ (x : Xdr) (lawful : IsXdr x) {xid : ℕ} (small : xid < 2 ^ 32) {S : Type 0} {a : Layout}
    (s : S) (status : Nfsstat3) (fails : IsFailure status) where
  pub laid_bare_error :
      Returns
        (IsLaidOut xid (result a done))
        (s, bind (create_bare_error_response x status) (create_success_reply_with_data x xid))
  unfolding create_bare_error_response
  laid_bare_error =
      laid_answer x lawful small (Makes-failed x lawful status fails.not_ok Makes-done)

  pub laid_attr_error :
      Returns
        (IsLaidOut xid (result a (post_op_attr done)))
        (s, bind (create_attr_error_response x status) (create_success_reply_with_data x xid))
  unfolding create_attr_error_response
  laid_attr_error =
      laid_answer x lawful small
        (Makes-failed x lawful status fails.not_ok (Makes-absent x lawful Makes-done))

  pub laid_wcc_error :
      Returns
        (IsLaidOut xid (result a (wcc_data done)))
        (s, bind (create_wcc_error_response x status) (create_success_reply_with_data x xid))
  unfolding create_wcc_error_response
  laid_wcc_error = laid_answer x lawful small (
      Makes-failed x lawful status fails.not_ok
        (Makes-absent x lawful (Makes-absent x lawful Makes-done)))

module _ (x : Xdr) (lawful : IsXdr x) {xid : ℕ} (small : xid < 2 ^ 32) {S : Type 0} (s : S)
    (status : Nfsstat3) (fails : IsFailure status) where
  -- A status of failure, and nothing else, is what they come to for a listing.
  pub bare_error :
      Returns
        (IsBareFailure xid)
        (s, bind (create_bare_error_response x status) (create_success_reply_with_data x xid))
  unfolding create_bare_error_response pack_status create_success_reply_with_data
  bare_error = record {
    result_of = λ bytes e. record {
      status = status;
      fails = fails;
      alone = ground (
        arith,
        e,
        header_lem x lawful small,
        lawful.pack_i32_lem (status_code status) (status_code-lt status),
        append-nil (be32 (status_code status)),
      );
    };
  }
