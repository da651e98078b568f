-- ===== src/Nfs/Layout.antt =====
-- What RFC 1813 says of the results of the NFS procedures, as a reader that goes over the bytes of
-- a result and finds where they end: src/xdr/v3/nfs.x has the same structures, in which `fattr3`
-- stands for a `post_op_attr` where its comments say so.
pub mod Reading
pub mod Parts
pub mod Values
pub mod Answer
pub mod Failure
pub mod Query
pub mod Change
pub mod Names
pub mod Entries
pub mod Listing
pub mod Dispatch
pub mod Bare
use arcticwolf.Base.{
  ℕ, zero, suc, ◌+◌, ◌*◌, ◌/◌, Bool, true, false, Option, none, some, length, drop, ltb, ◌==◌,
  if◌then◌else◌,
}
use arcticwolf.Base.Text.{Bytes}
use arcticwolf.Rpc.Server.{word_of}

-- A structure, each constructor with what follows it. `optional` is a Boolean, and the value if it
-- is true; a list is entries, each behind a Boolean; a result is a status, and one structure for
-- `NFS3_OK` and one for the rest.
pub data Layout : Type 0 where
  done : Layout
  fixed : ℕ → Layout → Layout
  opaque : Layout → Layout
  optional : Layout → Layout → Layout
  list : Layout → Layout → Layout
  result : Layout → Layout → Layout

-- The bytes behind so many, if they are there.
unfoldable pub beyond : ℕ → Bytes → Option Bytes
beyond n b = if ltb (length b) n then none else some (drop n b)

-- The first word, and what follows it.
unfoldable pub first_word : Bytes → Option (ℕ × Bytes)
first_word b = if ltb (length b) 4 then none else some (word_of b, drop 4 b)

-- The entries of a list, which are at most as many as there are bytes.
unfoldable pub skip_entries : (Bytes → Option Bytes) → ℕ → Bytes → Option Bytes
skip_entries entry zero b = none
skip_entries entry (suc fuel) b = elim (first_word b) [
  | none ↦ none
  | some (w, rest) ↦ elim (w == 0) [
    | true ↦ some rest
    | false ↦ elim (w == 1) [
      | false ↦ none
      | true ↦ elim (entry rest) [ none ↦ none | some rest' ↦ skip_entries entry fuel rest' ]
    ]
  ]
]

-- What follows a structure.
unfoldable pub skip : Layout → Bytes → Option Bytes
skip done b = some b
skip (fixed n next) b = elim (beyond n b) [ none ↦ none | some rest ↦ skip next rest ]
skip (opaque next) b = elim (first_word b) [
  | none ↦ none
  | some (n, rest) ↦ elim (beyond ((n + 3) / 4 * 4) rest) [
    | none ↦ none
    | some rest' ↦ skip next rest'
  ]
]
skip (optional value next) b = elim (first_word b) [
  | none ↦ none
  | some (w, rest) ↦ elim (w == 0) [
    | true ↦ skip next rest
    | false ↦ elim (w == 1) [
      | false ↦ none
      | true ↦ elim (skip value rest) [ none ↦ none | some rest' ↦ skip next rest' ]
    ]
  ]
]
skip (list entry next) b = elim (skip_entries (skip entry) (length b) b) [
  | none ↦ none
  | some rest ↦ skip next rest
]
skip (result success failure) b = elim (first_word b) [
  | none ↦ none
  | some (status, rest) ↦ elim (status == 0) [
    | true ↦ skip success rest
    | false ↦ skip failure rest
  ]
]

abbrev pub word : Layout → Layout
word next = fixed 4 next

abbrev pub hyper : Layout → Layout
hyper next = fixed 8 next

abbrev pub boolean : Layout → Layout
boolean next = optional done next

-- Five words, two hypers, the device's two words, two hypers, and three times.
abbrev pub fattr3 : Layout → Layout
fattr3 next = fixed 84 next

abbrev pub post_op_attr : Layout → Layout
post_op_attr next = optional (fattr3 done) next

abbrev pub post_op_fh3 : Layout → Layout
post_op_fh3 next = optional (opaque done) next

-- The size and the two times before a change, and the attributes after it.
abbrev pub wcc_data : Layout → Layout
wcc_data next = optional (fixed 24 done) (post_op_attr next)

-- What CREATE, MKDIR, SYMLINK and MKNOD answer.
abbrev pub made : Layout
made = result (post_op_fh3 (post_op_attr (wcc_data done))) (wcc_data done)

-- `entry3` and `entryplus3` up to the pointer to the next one.
abbrev pub entry3 : Layout
entry3 = hyper (opaque (hyper done))

abbrev pub entryplus3 : Layout
entryplus3 = hyper (opaque (hyper (post_op_attr (post_op_fh3 done))))

abbrev pub listing : Layout → Layout
listing entry = result (post_op_attr (hyper (list entry (boolean done)))) (post_op_attr done)

-- The result of a procedure by its number.
abbrev pub result_of : ℕ → Option Layout
result_of n =
    if n == 0
    then some done
    else if n == 1
    then some (result (fattr3 done) done)
    else if n == 2
    then some (result (wcc_data done) (wcc_data done))
    else if n == 3
    then some (result (opaque (post_op_attr (post_op_attr done))) (post_op_attr done))
    else if n == 4
    then some (result (post_op_attr (word done)) (post_op_attr done))
    else if n == 5
    then some (result (post_op_attr (opaque done)) (post_op_attr done))
    else if n == 6
    then some (result (post_op_attr (word (boolean (opaque done)))) (post_op_attr done))
    else if n == 7
    then some (result (wcc_data (word (word (hyper done)))) (wcc_data done))
    else if n == 8
    then some made
    else if n == 9
    then some made
    else if n == 10
    then some made
    else if n == 11
    then some made
    else if n == 12
    then some (result (wcc_data done) (wcc_data done))
    else if n == 13
    then some (result (wcc_data done) (wcc_data done))
    else if n == 14
    then some (result (wcc_data (wcc_data done)) (wcc_data (wcc_data done)))
    else if n == 15
    then some (result (post_op_attr (wcc_data done)) (post_op_attr (wcc_data done)))
    else if n == 16
    then some (listing entry3)
    else if n == 17
    then some (listing entryplus3)
    else if n == 18
    then some (
        result (post_op_attr (hyper (hyper (hyper (hyper (hyper (hyper (word done))))))))
          (post_op_attr done))
    else if n == 19
    then some (
        result
          (post_op_attr
            (word (word (word (word (word (word (word (hyper (hyper (word done)))))))))))
          (post_op_attr done))
    else if n == 20
    then some (
        result (post_op_attr (word (word (boolean (boolean (boolean (boolean done)))))))
          (post_op_attr done))
    else if n == 21
    then some (result (wcc_data (hyper done)) (wcc_data done))
    else none
