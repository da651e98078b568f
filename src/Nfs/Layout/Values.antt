-- ===== src/Nfs/Layout/Values.antt =====
-- The parts of src/protocol/v3/nfs.rs with a value of RFC 1813: a status, a Boolean, an opaque, a
-- value that may be absent.
use arcticwolf.Base.{
  ◌%◌, ◌^◌, ◌<◌, ◌≡◌, ◌≢◌, refl, ap, ◌∙◌, true, false, Option, none, some, List, [], ◌∷◌, ◌++◌,
  append_assoc, append-nil, Bool, length, Result, ok, arith, ◌==◌, if◌then◌else◌,
}
use arcticwolf.Base.Text.{Bytes}
use arcticwolf.Base.Words.{be32}
use arcticwolf.Protocol.Nfs.{Nfsstat3, status_code, nfs3_ok, Fattr3}
use arcticwolf.Protocol.Xdr.{Xdr, IsXdr, pack_all}
use arcticwolf.Nfs.Wire.{padding, pack_status, pack_opaque, pack_post_op_attr, pack_post_op_fh3}
use arcticwolf.Nfs.Layout.{
  Layout, done, opaque, optional, result, skip, fattr3, boolean, post_op_attr, post_op_fh3,
}
use arcticwolf.Nfs.Layout.Reading.{
  pack_all-cons, skip_fixed, skip_absent, skip_present, skip_status, skip_done,
}
use arcticwolf.Nfs.Layout.Parts.{
  IsSized, Makes, Makes-done, Makes-step, Makes-flat, Makes-unflat, Makes-fixed, Makes-opaque,
  Makes-nothing, Makes-bytes, Makes-u32, Makes-i32, Makes-u64, Makes-fattr3, Makes-nfstime3,
  Makes-cookieverf3, Makes-fhandle3, Makes-filename3,
}

pub status_code-lt : (s : Nfsstat3) → status_code s < 2 ^ 31
status_code-lt nfs3_ok = omega arith
status_code-lt _ = omega arith

pub Makes-getattr3res :
    (x : Xdr) (sized : IsSized x) {b : Layout} (a : Fattr3)
    → Makes (result (fattr3 done) b) (x.pack_getattr3res a ∷ [])
Makes-getattr3res x sized {b} a =
    Makes-step _ done (x.pack_getattr3res a) []
      (λ c d e.
        let (c', whole, size) = sized.pack_getattr3res_size a c e in
        ap (λ t. skip (result (fattr3 done) b) (t ++ d)) whole
        ∙ ap (skip (result (fattr3 done) b)) (append_assoc (be32 0) c' d)
        ∙ skip_status (fattr3 done) b 0 (c' ++ d) (omega arith)
        ∙ skip_fixed 84 done c' d size)
      Makes-done

module _ (x : Xdr) (lawful : IsXdr x) where
  pub Makes-absent :
      {v l : Layout} {rs : List (Result Bytes)}
      → Makes l rs
      → Makes (optional v l) (x.pack_bool false ∷ rs)
  Makes-absent {v} {l} {rs} m =
      Makes-step (optional v l) l _ rs
        (λ c d e.
          let zero_word : c ≡ be32 0 = ground (arith, e, lawful.pack_bool_lem false) in
          ap (λ t. skip (optional v l) (t ++ d)) zero_word ∙ skip_absent v l d)
        m

  pub Makes-true :
      {l : Layout} {rs : List (Result Bytes)}
      → Makes l rs
      → Makes (optional done l) (x.pack_bool true ∷ rs)
  Makes-true {l} {rs} m =
      Makes-step (optional done l) l _ rs
        (λ c d e.
          let one_word : c ≡ be32 1 = ground (arith, e, lawful.pack_bool_lem true) in
          ap (λ t. skip (optional done l) (t ++ d)) one_word
          ∙ skip_present done l [] d (skip_done d))
        m

  pub Makes-bool :
      {l : Layout} {rs : List (Result Bytes)} (b : Bool)
      → Makes l rs
      → Makes (boolean l) (x.pack_bool b ∷ rs)
  Makes-bool true m = Makes-true m
  Makes-bool false m = Makes-absent m

  -- A value behind the Boolean that says that it is there.
  pub Makes-present :
      {v l : Layout} {r : Result Bytes} {rs : List (Result Bytes)}
      → Makes v (r ∷ [])
      → Makes l rs
      → Makes (optional v l) (x.pack_bool true ∷ r ∷ rs)
  Makes-present {v} {l} {r} {rs} value m = record {
    read_back = λ b d e.
        let (c, b', made, packed, whole) = pack_all-cons (x.pack_bool true) (r ∷ rs) b e in
        let (c', b'', made', packed', whole') = pack_all-cons r rs b' packed in
        let one_word : c ≡ be32 1 = ground (arith, made, lawful.pack_bool_lem true) in
        let alone : pack_all (r ∷ []) ≡ ok c' =
          ap (λ t. pack_all (t ∷ [])) made' ∙ ap ok (append-nil c') in
        ap (λ t. skip (optional v l) (t ++ d))
          (whole ∙ ap (λ t. t ++ b') one_word ∙ ap (λ t. be32 1 ++ t) whole')
        ∙ ap (skip (optional v l)) (append_assoc (be32 1) (c' ++ b'') d)
        ∙ ap (λ t. skip (optional v l) (be32 1 ++ t)) (append_assoc c' b'' d)
        ∙ skip_present v l c' (b'' ++ d) (value.read_back c' (b'' ++ d) alone)
        ∙ m.read_back b'' d packed';
  }

  pack_opaque_lem :
      (h : Bytes)
      → length h < 2 ^ 32
      → pack_opaque x h ≡ ok (be32 (length h) ++ (h ++ padding (length h)))
  unfolding pack_opaque
  pack_opaque_lem h small =
      let whole : length h % 2 ^ 32 ≡ length h = omega arith in
      rw (whole, lawful.pack_u32_lem (length h) small, append-nil (padding (length h))) refl

  pub Makes-pack_opaque :
      {l : Layout} {rs : List (Result Bytes)} (h : Bytes)
      → length h < 2 ^ 32
      → Makes l rs
      → Makes (opaque l) (pack_opaque x h ∷ rs)
  Makes-pack_opaque {l} {rs} h small m =
      Makes-opaque l (pack_opaque x h) rs
        (λ c e. (h, small, ground (arith, e, pack_opaque_lem h small))) m

  Makes-status :
      (a b : Layout) (s : Nfsstat3) (rs : List (Result Bytes)) (l : Layout)
      → ((d : Bytes) → (if status_code s == 0 then skip a d else skip b d) ≡ skip l d)
      → Makes l rs
      → Makes (result a b) (pack_status x s ∷ rs)
  unfolding pack_status
  Makes-status a b s rs l arm m =
      Makes-step (result a b) l _ rs
        (λ c d e.
          let coded : c ≡ be32 (status_code s) =
            ground (arith, e, lawful.pack_i32_lem (status_code s) (status_code-lt s)) in
          ap (λ t. skip (result a b) (t ++ d)) coded
          ∙ skip_status a b (status_code s) d (omega (arith, status_code-lt s))
          ∙ arm d)
        m

  pub Makes-ok :
      {a b : Layout} {rs : List (Result Bytes)}
      → Makes a rs
      → Makes (result a b) (pack_status x nfs3_ok ∷ rs)
  Makes-ok {a} {b} {rs} m = Makes-status a b nfs3_ok rs a (λ d. refl) m

  pub Makes-failed :
      {a b : Layout} {rs : List (Result Bytes)} (s : Nfsstat3)
      → status_code s ≢ 0
      → Makes b rs
      → Makes (result a b) (pack_status x s ∷ rs)
  Makes-failed {a} {b} {rs} s fails m = Makes-status a b s rs b (λ d. ground (arith, fails)) m

  -- Where both structures are the same, the status may be any.
  pub Makes-either :
      {a : Layout} {rs : List (Result Bytes)} (s : Nfsstat3)
      → Makes a rs
      → Makes (result a a) (pack_status x s ∷ rs)
  Makes-either {a} {rs} s m = Makes-status a a s rs a (λ d. ground arith) m

module _ (x : Xdr) (lawful : IsXdr x) (sized : IsSized x) {l : Layout}
    {rs : List (Result Bytes)} where
  pub Makes-post_op_attr :
      (o : Option Fattr3) → Makes l rs → Makes (post_op_attr l) (pack_post_op_attr x o ∷ rs)
  unfolding pack_post_op_attr
  Makes-post_op_attr none m = Makes-absent x lawful m
  Makes-post_op_attr (some a) m =
      Makes-flat (x.pack_bool true ∷ x.pack_fattr3 a ∷ [])
        (Makes-present x lawful (Makes-fattr3 x sized a Makes-done) m)

  pub Makes-no_fh3 : Makes l rs → Makes (post_op_fh3 l) (pack_post_op_fh3 x none ∷ rs)
  unfolding pack_post_op_fh3
  Makes-no_fh3 m = Makes-absent x lawful m

  pub Makes-post_op_fh3 :
      (h : Bytes)
      → length h < 2 ^ 32
      → Makes l rs
      → Makes (post_op_fh3 l) (pack_post_op_fh3 x (some h) ∷ rs)
  unfolding pack_post_op_fh3
  Makes-post_op_fh3 h small m =
      Makes-flat (x.pack_bool true ∷ pack_opaque x h ∷ [])
        (Makes-present x lawful (Makes-pack_opaque x lawful h small Makes-done) m)

pub ruleset layouts = (
  Makes-done, Makes-u32, Makes-i32, Makes-u64, Makes-fattr3, Makes-nfstime3, Makes-fhandle3,
  Makes-filename3, Makes-absent, Makes-true, Makes-bool, Makes-present, Makes-pack_opaque, Makes-ok,
  Makes-failed, Makes-either, Makes-post_op_attr, Makes-post_op_fh3,
)
