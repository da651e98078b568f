-- ===== src/Build/Replace.antt =====
-- What `replace` of build.rs leaves of a text, and what it puts there.
use arcticwolf.Base.{
  ◌∙◌, ℕ, zero, suc, ◌-◌, ◌≡◌, refl, ap, subst, Bool, true, false, not, ◌&&◌, [], ◌∷◌, ◌++◌, take,
  length, inl, inr, ◌⊎◌, ◌==◌, Bool-cases, arith,
}
use arcticwolf.Base.Text.{contains-append, Text, is_prefix, contains}
use arcticwolf.Build.{replace_from}

-- A text without the character.
unfoldable pub lacks : ℕ → Text → Bool
lacks h [] = true
lacks h (c ∷ cs) = not (c == h) && lacks h cs

-- A needle that begins with a character that a text lacks does not begin in it.
absent-append :
    (h : ℕ) (q n t : Text)
    → lacks h n ≡ true
    → contains t (h ∷ q) ≡ false
    → contains (n ++ t) (h ∷ q) ≡ false
unfolding contains is_prefix lacks
absent-append h q [] t absent e = e
absent-append h q (c ∷ n) t absent e = ground (arith, absent-append h q n t)

-- The pattern and the replacement begin with `h`, and have it nowhere else.
module _ (h : ℕ) (p n : Text) where
  abbrev after : ℕ → Text → Text
  after k t = replace_from (h ∷ p) (h ∷ n) k t

  after_match :
      (c : ℕ) (cs : Text)
      → is_prefix (h ∷ p) (c ∷ cs) ≡ true
      → after 0 (c ∷ cs) ≡ (h ∷ n) ++ after (length (h ∷ p) - 1) cs
  unfolding replace_from
  after_match c cs e = rw (e, replace_from) refl

  after_found :
      (c : ℕ) (cs : Text)
      → is_prefix (h ∷ p) (c ∷ cs) ≡ true
      → after 0 (c ∷ cs) ≡ (h ∷ n) ++ after (length p) cs
  after_found c cs e =
      let size : length (h ∷ p) - 1 ≡ length p = omega arith in
      after_match c cs e ∙ ap (λ k. (h ∷ n) ++ after k cs) size

  after_other :
      (c : ℕ) (cs : Text) → is_prefix (h ∷ p) (c ∷ cs) ≡ false → after 0 (c ∷ cs) ≡ c ∷ after 0 cs
  unfolding replace_from
  after_other c cs e = rw (e, replace_from) refl

  -- What lacks `h` and is at the front after the replacement was there before.
  front_before :
      (q t : Text) → lacks h q ≡ true → is_prefix q (after 0 t) ≡ true → is_prefix q t ≡ true
  unfolding is_prefix lacks replace_from
  front_before [] t absent e = refl
  front_before (d ∷ q) [] absent e = absurd (cc)
  front_before (d ∷ q) (c ∷ cs) absent e = elim (Bool-cases (is_prefix (h ∷ p) (c ∷ cs))) [
    | inl match ↦
        let e' = subst (λ t. is_prefix (d ∷ q) t ≡ true) (after_match c cs match) e in
        absurd (ground (arith, e', absent))
    | inr other ↦
        let e' = subst (λ t. is_prefix (d ∷ q) t ≡ true) (after_other c cs other) e in
        ground (arith, e', absent, front_before q cs)
  ]

  -- A needle that begins with `h`, has it nowhere else and is not the beginning of the replacement
  -- is not in the text after the replacement, if it was not there before or is the pattern.
  module _ (q : Text) (once : lacks h q ≡ true) (once' : lacks h n ≡ true)
      (apart : (t : Text) → is_prefix (h ∷ q) ((h ∷ n) ++ t) ≡ false) where
    abbrev IsFree : Text → Type 0
    IsFree t = (contains t (h ∷ q) ≡ false) ⊎ (q ≡ p)

    IsFree-tail : (c : ℕ) (cs : Text) → IsFree (c ∷ cs) → IsFree cs
    unfolding contains
    IsFree-tail c cs (inl e) = inl (ground (arith, e))
    IsFree-tail c cs (inr same) = inr same

    -- An occurrence that begins with a character that is kept was there before.
    not_here :
        (c : ℕ) (cs : Text)
        → IsFree (c ∷ cs)
        → is_prefix (h ∷ p) (c ∷ cs) ≡ false
        → is_prefix (h ∷ q) (c ∷ after 0 cs) ≡ false
    unfolding contains is_prefix
    not_here c cs (inl e) other = ground (arith, e, front_before q cs once)
    not_here c cs (inr same) other =
        let other' : is_prefix (h ∷ q) (c ∷ cs) ≡ false = rw same other in
        ground (arith, other', front_before q cs once)

    pub contains-after : (k : ℕ) (t : Text) → IsFree t → contains (after k t) (h ∷ q) ≡ false
    unfolding contains is_prefix replace_from
    contains-after k [] e = refl
    contains-after (suc k) (c ∷ cs) e = contains-after k cs (IsFree-tail c cs e)
    contains-after zero (c ∷ cs) e = elim (Bool-cases (is_prefix (h ∷ p) (c ∷ cs))) [
      | inl match ↦
          let rest = after (length (h ∷ p) - 1) cs in
          let free = contains-after (length (h ∷ p) - 1) cs (IsFree-tail c cs e) in
          rw (after_match c cs match, contains)
            (ground (arith, apart rest, absent-append h q n rest once' free))
      | inr other ↦
          let free = contains-after 0 cs (IsFree-tail c cs e) in
          rw (after_other c cs other, contains) (ground (arith, not_here c cs e other, free))
    ]

contains-behind : (a t needle : Text) → contains t needle ≡ true → contains (a ++ t) needle ≡ true
unfolding contains
contains-behind [] t needle e = e
contains-behind (c ∷ a) t needle e = ground (arith, contains-behind a t needle e)

lacks-take :
    (h : ℕ) (p t : Text)
    → lacks h p ≡ true
    → is_prefix p t ≡ true
    → lacks h (take (length p) t) ≡ true
unfolding lacks is_prefix
lacks-take h [] t absent e = refl
lacks-take h (c ∷ p) [] absent e = absurd (cc)
lacks-take h (c ∷ p) (d ∷ t) absent e = ground (arith, absent, e, lacks-take h p t)

-- The pattern and the replacement begin with `h`, and the pattern has it nowhere else.
module _ (h : ℕ) (p n : Text) (once : lacks h p ≡ true) where
  front_after :
      (q t : Text) → lacks h q ≡ true → is_prefix q t ≡ true → is_prefix q (after h p n 0 t) ≡ true
  unfolding is_prefix lacks
  front_after [] t absent e = refl
  front_after (d ∷ q) [] absent e = absurd (cc)
  front_after (d ∷ q) (c ∷ cs) absent e =
      let other : is_prefix (h ∷ p) (c ∷ cs) ≡ false = ground (arith, absent, e) in
      rw (after_other h p n c cs other) (ground (arith, absent, e, front_after q cs))

  -- What holds behind a match, and what is left of the pattern there.
  tail_lacks :
      (c : ℕ) (cs : Text) → is_prefix (h ∷ p) (c ∷ cs) ≡ true → lacks h (take (length p) cs) ≡ true
  unfolding is_prefix
  tail_lacks c cs match = lacks-take h p cs once (ground (arith, match))

  -- A needle that begins with `h`, has it nowhere else and does not begin like the pattern is
  -- there after the replacement if it was there before.
  module _ (q : Text) (single : lacks h q ≡ true)
      (apart : (t : Text) → is_prefix (h ∷ q) t ≡ true → is_prefix (h ∷ p) t ≡ false) where
    pub contains-kept :
        (k : ℕ) (t : Text)
        → lacks h (take k t) ≡ true
        → contains t (h ∷ q) ≡ true
        → contains (after h p n k t) (h ∷ q) ≡ true
    unfolding contains is_prefix lacks replace_from
    contains-kept k [] absent e = absurd (cc)
    contains-kept (suc k) (c ∷ cs) absent e =
        contains-kept k cs (ground (arith, absent)) (ground (arith, absent, e))
    contains-kept zero (c ∷ cs) absent e = elim (Bool-cases (is_prefix (h ∷ p) (c ∷ cs))) [
      | inl match ↦
          let later : contains cs (h ∷ q) ≡ true = ground (arith, e, match, apart (c ∷ cs)) in
          rw (after_found h p n c cs match) (
            contains-behind (h ∷ n) (after h p n (length p) cs) (h ∷ q)
              (contains-kept (length p) cs (tail_lacks c cs match) later))
      | inr other ↦
          rw (after_other h p n c cs other, contains)
            (ground (arith, e, front_after q cs single, contains-kept zero cs refl))
    ]

  -- The replacement is there if the pattern was.
  pub contains-replaced :
      (k : ℕ) (t : Text)
      → lacks h (take k t) ≡ true
      → contains t (h ∷ p) ≡ true
      → contains (after h p n k t) (h ∷ n) ≡ true
  unfolding contains is_prefix lacks replace_from
  contains-replaced k [] absent e = absurd (cc)
  contains-replaced (suc k) (c ∷ cs) absent e =
      contains-replaced k cs (ground (arith, absent)) (ground (arith, absent, e))
  contains-replaced zero (c ∷ cs) absent e = elim (Bool-cases (is_prefix (h ∷ p) (c ∷ cs))) [
    | inl match ↦
        rw (after_found h p n c cs match) (contains-append [] (h ∷ n) (after h p n (length p) cs))
    | inr other ↦
        rw (after_other h p n c cs other, contains)
          (ground (arith, e, other, contains-replaced zero cs refl))
  ]
