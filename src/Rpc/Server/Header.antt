-- ===== src/Rpc/Server/Header.antt =====
-- Where the arguments of a call begin: `args_of` against the layout of RFC 5531.
use arcticwolf.Base.{
  ℕ, ◌+◌, ◌-◌, ◌%◌, ◌^◌, ◌<◌, ◌≡◌, refl, sym, ◌∙◌, ap, [], ◌∷◌, ◌++◌, append_assoc, length, drop,
  replicate, length-append, length-replicate, drop_append, drop_add, ok, some, arith, if◌then◌else◌,
  ltb,
}
use arcticwolf.Base.Text.{Bytes}
use arcticwolf.Base.Words.{be32}
use arcticwolf.Rpc.Server.{word_of, round_up, skip_auth, args_of}
use arcticwolf.Rpc.Server.Record.{word_of-be32}

-- XDR fills an opaque up to a multiple of four bytes.
abbrev pub fill : ℕ → ℕ
fill n = (4 - n % 4) % 4

-- An `opaque_auth` on the wire: the flavor, the length, the body and its padding.
unfoldable pub auth_bytes : ℕ → Bytes → Bytes
unfolding be32
auth_bytes flavor body =
    be32 flavor ++ (be32 (length body) ++ (body ++ replicate (fill (length body)) 0))

length-be32 : (n : ℕ) → length (be32 n) ≡ 4
unfolding be32
length-be32 n = refl

add-fill : (n : ℕ) → n + fill n ≡ round_up n
unfolding round_up
add-fill n = omega arith

length-auth_bytes :
    (flavor : ℕ) (body : Bytes) → length (auth_bytes flavor body) ≡ 8 + round_up (length body)
unfolding auth_bytes
length-auth_bytes flavor body = omega (
  arith,
  length-append (be32 flavor) (be32 (length body) ++ (body ++ replicate (fill (length body)) 0)),
  length-append (be32 (length body)) (body ++ replicate (fill (length body)) 0),
  length-append body (replicate (fill (length body)) 0),
  length-be32 flavor,
  length-be32 (length body),
  length-replicate {A = ℕ} (fill (length body)) 0,
  add-fill (length body),
)

-- The length word stands four bytes into the credential.
word_of-auth_bytes :
    (flavor : ℕ) (body rest : Bytes)
    → length body < 2 ^ 32
    → word_of (drop 4 (auth_bytes flavor body ++ rest)) ≡ length body
unfolding auth_bytes
word_of-auth_bytes flavor body rest h =
    ap word_of (append_assoc (be32 (length body)) (body ++ replicate (fill (length body)) 0) rest)
    ∙ word_of-be32 (length body) _ h

-- `skip_auth` comes to the end of an `opaque_auth`, whatever stands before and behind it.
skip_auth_lem :
    (contents pre : Bytes) (n flavor : ℕ) (body rest : Bytes)
    → contents ≡ pre ++ (auth_bytes flavor body ++ rest)
    → n ≡ length pre
    → length body < 2 ^ 32
    → skip_auth contents n ≡ some (n + length (auth_bytes flavor body))
unfolding skip_auth
skip_auth_lem contents pre n flavor body rest e at h =
    let word : word_of (drop (n + 4) contents) ≡ length body =
      rw (e, at)
        (ap word_of (
            drop_add (length pre) 4 (pre ++ (auth_bytes flavor body ++ rest))
            ∙ ap (drop 4) (drop_append pre (auth_bytes flavor body ++ rest)))
          ∙ word_of-auth_bytes flavor body rest h) in
    ground (
      arith,
      word,
      ap length e,
      length-auth_bytes flavor body,
      length-append pre (auth_bytes flavor body ++ rest),
      length-append (auth_bytes flavor body) rest,
    )

rest_lem :
    (contents pre args : Bytes) (n : ℕ)
    → contents ≡ pre ++ args
    → n ≡ length pre
    → (if ltb n (length contents) then ok (drop n contents) else ok []) ≡ ok args
rest_lem contents pre [] n e at =
    let d : drop n contents ≡ [] = rw (e, at) (drop_append pre []) in ground (arith, d)
rest_lem contents pre (a ∷ args) n e at =
    let d : drop n contents ≡ a ∷ args = rw (e, at) (drop_append pre (a ∷ args)) in
    ground (arith, d, ap length e, length-append pre (a ∷ args))

-- The arguments of a call are found behind the 24 bytes of its header, its credential and its
-- verifier, of any flavors and of any lengths below 2 ^ 32.
pub args_of_lem :
    (header : Bytes) (cred_flavor verf_flavor : ℕ) (cred verf args : Bytes)
    → length header ≡ 24
    → length cred < 2 ^ 32
    → length verf < 2 ^ 32
    → args_of (header ++ (auth_bytes cred_flavor cred ++ (auth_bytes verf_flavor verf ++ args)))
      ≡ ok args
unfolding args_of
args_of_lem header cred_flavor verf_flavor cred verf args h hc hv =
    let c = auth_bytes cred_flavor cred in
    let v = auth_bytes verf_flavor verf in
    let contents = header ++ (c ++ (v ++ args)) in
    let apart : contents ≡ (header ++ c) ++ (v ++ args) = sym (append_assoc header c (v ++ args)) in
    let whole : contents ≡ ((header ++ c) ++ v) ++ args =
      apart ∙ sym (append_assoc (header ++ c) v args) in
    let first = skip_auth_lem contents header 24 cred_flavor cred (v ++ args) refl (sym h) hc in
    let second =
      skip_auth_lem contents (header ++ c) (24 + length c) verf_flavor verf args apart
        (omega (arith, length-append header c)) hv in
    ground (
      arith,
      first,
      second,
      rest_lem contents ((header ++ c) ++ v) args (24 + length c + length v) whole
          (omega (arith, length-append header c, length-append (header ++ c) v)),
    )
