-- ===== src/Base/Errors.antt =====
-- Errors as values: `anyhow::Result`, and computations that also carry a state.
use mathlib.Core.Path.{◌≡◌, refl}
use mathlib.Core.Logic.{◌⊎◌, inl, inr}
use mathlib.Core.Option.{Option, none, some}
use mathlib.Core.List.{◌∷◌, ◌++◌}
use arcticwolf.Base.Text.{Text, codes}

-- The kinds of `std::io::Error` that the program tells apart.
pub data ErrorKind : Type 0 where
  already_exists not_found permission_denied invalid_input other : ErrorKind

-- An `anyhow::Error`: what `to_string` shows, which is the outermost context, what `{:?}` shows,
-- which is the whole chain, and the `io::Error` that `downcast_ref` finds in the chain.
pub record Error : Type 0 where
  pub message : Text
  pub debug : Text
  pub io_kind : Option ErrorKind

pub data Result {ℓ} (A : Type ℓ) : Type ℓ where
  ok : A → Result A
  err : Error → Result A

-- `anyhow!(message)`
abbrev pub anyhow : Text → Error
anyhow t = record { message = t; debug = t; io_kind = none }

-- "Caused by:" between two lines and an indented cause.
abbrev caused_by : Text
caused_by = 10 ∷ 10 ∷ (codes "Caused by:" ++ (10 ∷ codes "    "))

-- `.context(message)`
abbrev pub context {ℓ} : {A : Type ℓ} → Text → Result A → Result A
context t (ok a) = ok a
context t (err e) = err (record e { message = t; debug = t ++ (caused_by ++ e.debug) })

-- `.ok()`
abbrev pub to_option {ℓ} : {A : Type ℓ} → Result A → Option A
to_option (ok a) = some a
to_option (err e) = none

abbrev pub bind {ℓ κ} : {A : Type ℓ} {B : Type κ} → Result A → (A → Result B) → Result B
bind (ok a) f = f a
bind (err e) f = err e

-- A method of an object that has the state `S`: it returns the new state and its result.
abbrev pub M : Type 0 → Type 0 → Type 0
M S A = S → S × Result A

abbrev pub pure : {S A : Type 0} → A → S → S × Result A
pure a s = (s, ok a)

abbrev pub fail : {S A : Type 0} → Error → S → S × Result A
fail e s = (s, err e)

-- A result that needs no state, under `?`.
abbrev pub lift : {S A : Type 0} → Result A → S → S × Result A
lift r s = (s, r)

abbrev pub then_on : {S A B : Type 0} → S × Result A → (A → S → S × Result B) → S × Result B
then_on (s, ok a) f = f a s
then_on (s, err e) f = (s, err e)

-- A method that cannot fail.
abbrev pub total : {S A : Type 0} → (S → S × A) → S → S × Result A
total m s = let (s', a) = m s in (s', ok a)

-- `?` after a method call: an error returns at once, with the state as the call left it.
infixl 5 ◌>>=◌ ◌>>◌
abbrev pub ◌>>=◌ : {S A B : Type 0} → (S → S × Result A) → (A → S → S × Result B) → S → S × Result B
◌>>=◌ m f s = then_on (m s) f

abbrev pub ◌>>◌ :
    {S B : Type 0} → (S → S × Result (Unit {0})) → (S → S × Result B) → S → S × Result B
◌>>◌ m k = m >>= λ _. k

-- A method call whose result, error or not, the caller inspects.
abbrev pub attempt : {S A : Type 0} → (S → S × Result A) → S → S × Result (Result A)
attempt m s = let (s', r) = m s in (s', ok r)

pub Result-cases {ℓ} :
    {A : Type ℓ} (r : Result A) → ((a : A) × (r ≡ ok a)) ⊎ ((e : Error) × (r ≡ err e))
Result-cases (ok a) = inl (a, refl)
Result-cases (err e) = inr (e, refl)

-- A method that succeeds has got past its first call.
pub then_on-ok :
    {S A B : Type 0} (s : S) (r : Result A) (k : A → S → S × Result B) (b : B)
    → (then_on (s, r) k).1 ≡ ok b
    → (a : A) × (r ≡ ok a) × (then_on (s, r) k ≡ k a s) × ((k a s).1 ≡ ok b)
then_on-ok s (ok a) k b e = (a, refl, refl, e)
then_on-ok s (err f) k b e = absurd (cc)

pub context-ok : {A : Type 0} (t : Text) (r : Result A) (a : A) → context t r ≡ ok a → r ≡ ok a
context-ok t (ok b) a e = e
context-ok t (err f) a e = absurd (cc)
