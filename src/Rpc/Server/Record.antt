-- ===== src/Rpc/Server/Record.antt =====
-- Record marking, in both directions (`handle_connection` of src/rpc/server.rs).
use arcticwolf.Base.{
  ℕ, Bool, true, false, not, ◌==◌, if◌then◌else◌, length-append, ◌≤◌, ◌+◌, ◌*◌, ◌/◌, ◌%◌, ◌^◌, ◌<◌,
  ◌≡◌, refl, ◌++◌, length, drop, take_append, drop_append, arith, ap,
}
use arcticwolf.Base.Text.{Bytes}
use arcticwolf.Base.Words.{be32, of_be32_be32}
use arcticwolf.Rpc.Server.{word_of, with_record_mark, read_fragment, got}

-- A record mark, as RFC 5531 defines it: the last-fragment bit and the length.
abbrev pub mark : ℕ → ℕ → ℕ
mark last len = last * 2 ^ 31 + len

-- One fragment on the wire.
unfoldable pub fragment : ℕ → Bytes → Bytes
unfolding be32
fragment last bytes = be32 (mark last (length bytes)) ++ bytes

pub word_of-be32 : (n : ℕ) (rest : Bytes) → n < 2 ^ 32 → word_of (be32 n ++ rest) ≡ n
unfolding word_of be32
word_of-be32 n rest h = of_be32_be32 n h

-- A response shorter than 2 ^ 31 bytes goes out as one last fragment.
pub with_record_mark-eq_fragment :
    (response : Bytes) → length response < 2 ^ 31 → with_record_mark response ≡ fragment 1 response
unfolding with_record_mark fragment
with_record_mark-eq_fragment response h = ap (λ n. be32 n ++ response) (omega arith)

word_of-fragment :
    (l : ℕ) (bytes rest : Bytes)
    → l ≤ 1
    → length bytes < 2 ^ 31
    → word_of (fragment l bytes ++ rest) ≡ mark l (length bytes)
unfolding fragment
word_of-fragment l bytes rest hl h =
    word_of-be32 (mark l (length bytes)) (bytes ++ rest) (omega arith)

drop-fragment : (l : ℕ) (bytes rest : Bytes) → drop 4 (fragment l bytes ++ rest) ≡ bytes ++ rest
unfolding fragment
drop-fragment l bytes rest = refl

length-fragment :
    (l : ℕ) (bytes rest : Bytes)
    → length (fragment l bytes ++ rest) ≡ 4 + length bytes + length rest
unfolding fragment
length-fragment l bytes rest = omega (arith, length-append bytes rest)

read_mark :
    (l : ℕ) (bytes rest : Bytes)
    → l ≤ 1
    → length bytes < 2 ^ 31
    → read_fragment (fragment l bytes ++ rest) ≡ got (not (l == 0)) bytes rest
unfolding read_fragment
read_mark l bytes rest hl h =
    let n = word_of (fragment l bytes ++ rest) in
    let word = word_of-fragment l bytes rest hl h in
    let len : n % 2 ^ 31 ≡ length bytes = omega (arith, word) in
    let bit : n / 2 ^ 31 % 2 ≡ l = omega (arith, word) in
    rw (bit, len, drop-fragment l bytes rest, read_fragment)
      (ground (
        arith,
        length-fragment l bytes rest,
        length-append bytes rest,
        take_append bytes rest,
        drop_append bytes rest,
      ))

-- A fragment shorter than 2 ^ 31 bytes is read back whole, with its last-fragment bit and what
-- follows it.
pub read_fragment-fragment :
    (last : Bool) (bytes rest : Bytes)
    → length bytes < 2 ^ 31
    → read_fragment (fragment (if last then 1 else 0) bytes ++ rest) ≡ got last bytes rest
read_fragment-fragment true bytes rest h = read_mark 1 bytes rest (omega arith) h
read_fragment-fragment false bytes rest h = read_mark 0 bytes rest (omega arith) h
