-- ===== src/Nfs/Layout/Parts.antt =====
-- The parts that a reply is packed from (src/protocol/v3/nfs.rs), against the structure that they
-- make: a rule for each way in which a structure begins.
use arcticwolf.Base.{
  ℕ, ◌^◌, ◌<◌, ◌≡◌, sym, ap, ◌∙◌, some, List, [], ◌∷◌, ◌++◌, append_assoc, length, Result, ok,
  arith,
}
use arcticwolf.Base.Text.{Bytes, Text}
use arcticwolf.Base.Words.{be32}
use arcticwolf.Protocol.Nfs.{Read3args, Fattr3, Nfstime3}
use arcticwolf.Protocol.Xdr.{Xdr, pack_all}
use arcticwolf.Nfs.Wire.{padding}
use arcticwolf.Nfs.Layout.{Layout, done, fixed, opaque, skip, fattr3}
use arcticwolf.Nfs.Layout.Reading.{pack_all-cons, pack_all_flat, skip_fixed, skip_opaque}

-- RFC 4506 and RFC 1813: the sizes of what the codec packs, and an opaque behind its length. The
-- count of a READ is a word.
pub record IsSized (x : Xdr) : Type 0 where
  pub read_count : (b : Bytes) (a : Read3args) → x.unpack_read3args b ≡ ok a → a.count < 2 ^ 32
  pub pack_u32_size : (n : ℕ) (b : Bytes) → x.pack_u32 n ≡ ok b → length b ≡ 4
  pub pack_u64_size : (n : ℕ) (b : Bytes) → x.pack_u64 n ≡ ok b → length b ≡ 8
  pub pack_i32_size : (n : ℕ) (b : Bytes) → x.pack_i32 n ≡ ok b → length b ≡ 4
  pub pack_fattr3_size : (a : Fattr3) (b : Bytes) → x.pack_fattr3 a ≡ ok b → length b ≡ 84
  pub pack_nfstime3_size : (t : Nfstime3) (b : Bytes) → x.pack_nfstime3 t ≡ ok b → length b ≡ 8
  pub pack_cookieverf3_size : (v b : Bytes) → x.pack_cookieverf3 v ≡ ok b → length b ≡ length v
  pub pack_getattr3res_size :
      (a : Fattr3) (b : Bytes)
      → x.pack_getattr3res a ≡ ok b
      → (c : Bytes) × (b ≡ be32 0 ++ c) × (length c ≡ 84)
  pub pack_fhandle3_size :
      (h b : Bytes)
      → x.pack_fhandle3 h ≡ ok b
      → (length h < 2 ^ 32) × (b ≡ be32 (length h) ++ (h ++ padding (length h)))
  pub pack_filename3_size :
      (t : Text) (b : Bytes)
      → x.pack_filename3 t ≡ ok b
      → (c : Bytes) × (length c < 2 ^ 32) × (b ≡ be32 (length c) ++ (c ++ padding (length c)))

-- The parts make the structure, whatever follows.
pub record Makes (l : Layout) (parts : List (Result Bytes)) : Type 0 where
  pub read_back : (b d : Bytes) → pack_all parts ≡ ok b → skip l (b ++ d) ≡ some d

pub Makes-done : Makes done []
unfolding skip
Makes-done = record { read_back = λ b d e. ground (arith, e) }

-- A part that makes what a structure begins with.
pub Makes-step :
    (l l' : Layout) (r : Result Bytes) (rs : List (Result Bytes))
    → ((c d : Bytes) → r ≡ ok c → skip l (c ++ d) ≡ skip l' d)
    → Makes l' rs
    → Makes l (r ∷ rs)
Makes-step l l' r rs step m = record {
  read_back = λ b d e.
      let (c, c', made, packed, whole) = pack_all-cons r rs b e in
      ap (λ t. skip l (t ++ d)) whole
      ∙ ap (skip l) (append_assoc c c' d)
      ∙ step c (c' ++ d) made
      ∙ m.read_back c' d packed;
}

-- Parts that are packed together, and a part that is packed from several.
pub Makes-flat :
    {l : Layout} (ps : List (Result Bytes)) {rs : List (Result Bytes)}
    → Makes l (ps ++ rs)
    → Makes l (pack_all ps ∷ rs)
Makes-flat ps {rs} m = record {
  read_back = λ b d e. m.read_back b d (sym (pack_all_flat ps rs) ∙ e);
}

pub Makes-unflat :
    {l : Layout} (ps : List (Result Bytes)) {rs : List (Result Bytes)}
    → Makes l (pack_all ps ∷ rs)
    → Makes l (ps ++ rs)
Makes-unflat ps {rs} m = record { read_back = λ b d e. m.read_back b d (pack_all_flat ps rs ∙ e) }

pub Makes-fixed :
    (n : ℕ) (l : Layout) (r : Result Bytes) (rs : List (Result Bytes))
    → ((c : Bytes) → r ≡ ok c → length c ≡ n)
    → Makes l rs
    → Makes (fixed n l) (r ∷ rs)
Makes-fixed n l r rs size m =
    Makes-step (fixed n l) l r rs (λ c d e. skip_fixed n l c d (size c e)) m

pub Makes-opaque :
    (l : Layout) (r : Result Bytes) (rs : List (Result Bytes))
    → ((c : Bytes)
        → r ≡ ok c
        → (h : Bytes) × (length h < 2 ^ 32) × (c ≡ be32 (length h) ++ (h ++ padding (length h))))
    → Makes l rs
    → Makes (opaque l) (r ∷ rs)
Makes-opaque l r rs shape m =
    Makes-step (opaque l) l r rs
      (λ c d e.
        let (h, small, whole) = shape c e in
        ap (λ t. skip (opaque l) (t ++ d)) whole ∙ skip_opaque l h d small)
      m

-- A part that is empty if it is made.
pub Makes-nothing :
    {l : Layout} (r : Result Bytes) {rs : List (Result Bytes)}
    → ((c : Bytes) → r ≡ ok c → c ≡ [])
    → Makes l rs
    → Makes l (r ∷ rs)
Makes-nothing {l} r {rs} empty m =
    Makes-step l l r rs (λ c d e. ap (λ t. skip l (t ++ d)) (empty c e)) m

-- Bytes that the handlers write themselves.
pub Makes-bytes :
    {l : Layout} (n : ℕ) (b : Bytes) {rs : List (Result Bytes)}
    → length b ≡ n
    → Makes l rs
    → Makes (fixed n l) (ok b ∷ rs)
Makes-bytes {l} n b {rs} size m = Makes-fixed n l (ok b) rs (λ c e. ground (arith, e)) m

module _ (x : Xdr) (sized : IsSized x) {l : Layout} {rs : List (Result Bytes)} where
  pub Makes-u32 : (n : ℕ) → Makes l rs → Makes (fixed 4 l) (x.pack_u32 n ∷ rs)
  Makes-u32 n m = Makes-fixed 4 l (x.pack_u32 n) rs (sized.pack_u32_size n) m

  pub Makes-i32 : (n : ℕ) → Makes l rs → Makes (fixed 4 l) (x.pack_i32 n ∷ rs)
  Makes-i32 n m = Makes-fixed 4 l (x.pack_i32 n) rs (sized.pack_i32_size n) m

  pub Makes-u64 : (n : ℕ) → Makes l rs → Makes (fixed 8 l) (x.pack_u64 n ∷ rs)
  Makes-u64 n m = Makes-fixed 8 l (x.pack_u64 n) rs (sized.pack_u64_size n) m

  pub Makes-fattr3 : (a : Fattr3) → Makes l rs → Makes (fattr3 l) (x.pack_fattr3 a ∷ rs)
  Makes-fattr3 a m = Makes-fixed 84 l (x.pack_fattr3 a) rs (sized.pack_fattr3_size a) m

  pub Makes-nfstime3 : (t : Nfstime3) → Makes l rs → Makes (fixed 8 l) (x.pack_nfstime3 t ∷ rs)
  Makes-nfstime3 t m = Makes-fixed 8 l (x.pack_nfstime3 t) rs (sized.pack_nfstime3_size t) m

  pub Makes-cookieverf3 :
      (v : Bytes) → Makes l rs → Makes (fixed (length v) l) (x.pack_cookieverf3 v ∷ rs)
  Makes-cookieverf3 v m =
      Makes-fixed (length v) l (x.pack_cookieverf3 v) rs (sized.pack_cookieverf3_size v) m

  pub Makes-fhandle3 : (h : Bytes) → Makes l rs → Makes (opaque l) (x.pack_fhandle3 h ∷ rs)
  Makes-fhandle3 h m =
      Makes-opaque l (x.pack_fhandle3 h) rs
        (λ c e. let (small, whole) = sized.pack_fhandle3_size h c e in (h, small, whole)) m

  pub Makes-filename3 : (t : Text) → Makes l rs → Makes (opaque l) (x.pack_filename3 t ∷ rs)
  Makes-filename3 t m = Makes-opaque l (x.pack_filename3 t) rs (sized.pack_filename3_size t) m
