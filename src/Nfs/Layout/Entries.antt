-- ===== src/Nfs/Layout/Entries.antt =====
-- The entries of a directory's listing, each behind a Boolean that says that it is there.
use arcticwolf.Base.{
  ℕ, zero, suc, ◌≤◌, ◌≡◌, refl, subst, ap, ◌∙◌, false, some, List, [], ◌∷◌, ◌++◌, append_assoc,
  length, length-append, Result, ok, arith,
}
use arcticwolf.Base.Text.{Bytes}
use arcticwolf.Base.Words.{be32}
use arcticwolf.Protocol.Xdr.{Xdr, IsXdr}
use arcticwolf.Nfs.Layout.{Layout, list, skip_entries, skip}
use arcticwolf.Nfs.Layout.Parts.{Makes}
use arcticwolf.Nfs.Layout.Reading.{first_word-be32, pack_all-cons}

-- A whole list, and the beginning of one.
pub record IsList (entry : Layout) (b : Bytes) : Type 0 where
  pub listed :
      (fuel : ℕ) (d : Bytes) → length b ≤ fuel → skip_entries (skip entry) fuel (b ++ d) ≡ some d

pub record BeginsList (entry : Layout) (b : Bytes) : Type 0 where
  pub goes_on : (b' : Bytes) → IsList entry b' → IsList entry (b ++ b')

pub nil-BeginsList : {entry : Layout} → BeginsList entry []
nil-BeginsList = record { goes_on = λ b' h. h }

length-be32 : (n : ℕ) → length (be32 n) ≡ 4
unfolding be32
length-be32 n = refl

skip_entries-end :
    (entry : Layout) (fuel : ℕ) (d : Bytes)
    → length (be32 0) ≤ fuel
    → skip_entries (skip entry) fuel (be32 0 ++ d) ≡ some d
unfolding skip_entries
skip_entries-end entry zero d h = absurd (omega (arith, length-be32 0))
skip_entries-end entry (suc fuel) d h = rw (first_word-be32 0 d (omega arith), skip_entries) refl

end-IsList : (entry : Layout) → IsList entry (be32 0)
end-IsList entry = record { listed = skip_entries-end entry }

skip_entries-entry :
    (entry : Layout) (c b : Bytes) (fuel : ℕ) (d : Bytes)
    → ((d : Bytes) → skip entry (c ++ d) ≡ some d)
    → IsList entry b
    → length (be32 1 ++ (c ++ b)) ≤ fuel
    → skip_entries (skip entry) fuel (be32 1 ++ (c ++ (b ++ d))) ≡ some d
unfolding skip_entries
skip_entries-entry entry c b zero d whole rest h =
    absurd (omega (arith, length-be32 1, length-append (be32 1) (c ++ b)))
skip_entries-entry entry c b (suc fuel) d whole rest h =
    rw (first_word-be32 1 (c ++ (b ++ d)) (omega arith), skip_entries)
      (rw (whole (b ++ d), skip_entries)
        (rest.listed fuel d
          (omega (arith, length-be32 1, length-append (be32 1) (c ++ b), length-append c b))))

pub entry-BeginsList :
    {entry : Layout} (c b : Bytes)
    → ((d : Bytes) → skip entry (c ++ d) ≡ some d)
    → BeginsList entry b
    → BeginsList entry (be32 1 ++ (c ++ b))
entry-BeginsList {entry} c b whole begun = record {
  goes_on = λ b' rest. record {
    listed = λ fuel d h.
        let shape : (be32 1 ++ (c ++ b)) ++ b' ≡ be32 1 ++ (c ++ (b ++ b')) =
          append_assoc (be32 1) (c ++ b) b' ∙ ap (λ t. be32 1 ++ t) (append_assoc c b b') in
        ap (λ t. skip_entries (skip entry) fuel (t ++ d)) shape
        ∙ ap (skip_entries (skip entry) fuel) (
            append_assoc (be32 1) (c ++ (b ++ b')) d
            ∙ ap (λ t. be32 1 ++ t) (append_assoc c (b ++ b') d))
        ∙ skip_entries-entry entry c (b ++ b') fuel d whole (begun.goes_on b' rest)
            (subst (λ t. length t ≤ fuel) shape h);
  };
}

skip_list :
    (entry l : Layout) (b d : Bytes) → IsList entry b → skip (list entry l) (b ++ d) ≡ skip l d
unfolding skip
skip_list entry l b d whole =
    rw (whole.listed (length (b ++ d)) d (omega (arith, length-append b d)), skip) refl

module _ (x : Xdr) (lawful : IsXdr x) where
  -- Entries, the Boolean that says that there are no more, and what follows.
  pub Makes-list :
      {entry l : Layout} (b : Bytes) {rs : List (Result Bytes)}
      → BeginsList entry b
      → Makes l rs
      → Makes (list entry l) (ok b ∷ x.pack_bool false ∷ rs)
  Makes-list {entry} {l} b {rs} begun m = record {
    read_back = λ bytes d e.
        let (c, b', made, packed, whole) = pack_all-cons (ok b) (x.pack_bool false ∷ rs) bytes e in
        let (c', b'', made', packed', whole') = pack_all-cons (x.pack_bool false) rs b' packed in
        let shape : bytes ≡ (b ++ be32 0) ++ b'' = ground (
          arith,
          made,
          made',
          whole,
          whole',
          lawful.pack_bool_lem false,
          append_assoc b (be32 0) b'',
        ) in
        ap (λ t. skip (list entry l) (t ++ d)) shape
        ∙ ap (skip (list entry l)) (append_assoc (b ++ be32 0) b'' d)
        ∙ skip_list entry l (b ++ be32 0) (b'' ++ d) (begun.goes_on (be32 0) (end-IsList entry))
        ∙ m.read_back b'' d packed';
  }
