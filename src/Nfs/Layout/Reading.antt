-- ===== src/Nfs/Layout/Reading.antt =====
-- The reader of a structure at the bytes that a part is packed into (src/protocol/v3/nfs.rs).
use arcticwolf.Base.{
  ℕ, ◌+◌, ◌-◌, ◌*◌, ◌/◌, ◌%◌, ◌^◌, ◌<◌, ◌≡◌, refl, ap, ◌∙◌, some, List, [], ◌∷◌, ◌++◌, append_assoc,
  length, length-append, drop_append, length-replicate, Result, ok, err, bind, arith, ◌==◌,
  if◌then◌else◌, Result-cases, inl, inr,
}
use arcticwolf.Base.Text.{Bytes}
use arcticwolf.Base.Words.{be32}
use arcticwolf.Protocol.Xdr.{pack_all}
use arcticwolf.Nfs.Wire.{padding}
use arcticwolf.Nfs.Layout.{Layout, done, fixed, opaque, optional, result, beyond, first_word, skip}
use arcticwolf.Rpc.Server.Record.{word_of-be32}

pub first_word-be32 :
    (n : ℕ) (rest : Bytes) → n < 2 ^ 32 → first_word (be32 n ++ rest) ≡ some (n, rest)
unfolding first_word be32
first_word-be32 n rest h = ground (arith, word_of-be32 n rest h)

beyond_append : (n : ℕ) (b rest : Bytes) → length b ≡ n → beyond n (b ++ rest) ≡ some rest
unfolding beyond
beyond_append n b rest h = rw (← h) (ground (arith, length-append b rest, drop_append b rest))

-- The bytes of several parts are the bytes of the first, and those of the rest.
pub pack_all-cons :
    (r : Result Bytes) (rs : List (Result Bytes)) (b : Bytes)
    → pack_all (r ∷ rs) ≡ ok b
    → (c d : Bytes) × (r ≡ ok c) × (pack_all rs ≡ ok d) × (b ≡ c ++ d)
pack_all-cons (err f) rs b e = absurd (cc)
pack_all-cons (ok c) rs b e = elim (Result-cases (pack_all rs)) [
  | inl (d, h) ↦ (c, d, refl, h, ground (arith, e, h))
  | inr (f, h) ↦ absurd (ground (arith, e, h))
]

bind_prefix :
    (c : Bytes) (p q : Result Bytes)
    → bind (bind p (λ rest. ok (c ++ rest))) (λ bytes. bind q (λ rest. ok (bytes ++ rest)))
      ≡ bind (bind p (λ bytes. bind q (λ rest. ok (bytes ++ rest)))) (λ rest. ok (c ++ rest))
bind_prefix c (ok a) (ok b) = ap ok (append_assoc c a b)
bind_prefix c (ok a) (err f) = refl
bind_prefix c (err f) q = refl

pub pack_all_flat :
    (ps rs : List (Result Bytes)) → pack_all (pack_all ps ∷ rs) ≡ pack_all (ps ++ rs)
pack_all_flat [] rs = elim (Result-cases (pack_all rs)) [
  | inl (d, h) ↦ rw h refl
  | inr (f, h) ↦ rw h refl
]
pack_all_flat (err f ∷ ps) rs = refl
pack_all_flat (ok c ∷ ps) rs =
    bind_prefix c (pack_all ps) (pack_all rs)
    ∙ ap (λ r. bind r (λ rest. ok (c ++ rest))) (pack_all_flat ps rs)

pub skip_fixed :
    (n : ℕ) (l : Layout) (c d : Bytes) → length c ≡ n → skip (fixed n l) (c ++ d) ≡ skip l d
unfolding skip
skip_fixed n l c d h = rw (beyond_append n c d h, skip) refl

pub length-padding : (n : ℕ) → n + length (padding n) ≡ (n + 3) / 4 * 4
unfolding padding
length-padding n = omega (arith, length-replicate {A = ℕ} ((4 - n % 4) % 4) 0)

pub skip_opaque :
    (l : Layout) (h d : Bytes)
    → length h < 2 ^ 32
    → skip (opaque l) ((be32 (length h) ++ (h ++ padding (length h))) ++ d) ≡ skip l d
unfolding skip
skip_opaque l h d small =
    let size : length (h ++ padding (length h)) ≡ (length h + 3) / 4 * 4 =
      length-append h (padding (length h)) ∙ length-padding (length h) in
    ap (skip (opaque l)) (append_assoc (be32 (length h)) (h ++ padding (length h)) d)
    ∙ rw (first_word-be32 (length h) ((h ++ padding (length h)) ++ d) small, skip)
        (rw (beyond_append _ (h ++ padding (length h)) d size) refl)

pub skip_absent : (v l : Layout) (d : Bytes) → skip (optional v l) (be32 0 ++ d) ≡ skip l d
unfolding skip
skip_absent v l d = rw (first_word-be32 0 d (omega arith), skip) refl

-- A value that is there is read as though it were not optional.
pub skip_present :
    (v l : Layout) (c d : Bytes)
    → skip v (c ++ d) ≡ some d
    → skip (optional v l) (be32 1 ++ (c ++ d)) ≡ skip l d
unfolding skip
skip_present v l c d e = rw (first_word-be32 1 (c ++ d) (omega arith), skip) (rw e refl)

pub skip_status :
    (a b : Layout) (n : ℕ) (d : Bytes)
    → n < 2 ^ 32
    → skip (result a b) (be32 n ++ d) ≡ (if n == 0 then skip a d else skip b d)
unfolding skip
skip_status a b n d h = rw (first_word-be32 n d h, skip) (ground arith)

pub skip_done : (d : Bytes) → skip done d ≡ some d
unfolding skip
skip_done d = refl
