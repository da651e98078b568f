-- ===== src/Base/Returns.antt =====
-- What a method returns if it does not fail, read off its code: a rule for each way in which a
-- method goes on after a call.
use mathlib.Core.Bool.{Bool, true, false}
use mathlib.Core.Path.{◌≡◌, refl, subst}
use native.Mathlib.Omega.{arith}
use arcticwolf.Base.Tests.{if◌then◌else◌}
use arcticwolf.Base.Errors.{Error, Result, ok, err, then_on}

pub record Returns {S A : Type 0} (P : A → Type 0) (t : S × Result A) : Type 0 where
  pub result_of : (a : A) → t.1 ≡ ok a → P a

module _ {S B : Type 0} {P : B → Type 0} where
  pub Returns-fail : (s : S) (e : Error) → Returns P (s, err e)
  Returns-fail s e = record { result_of = λ b h. absurd (cc) }

  pub Returns-ok : {s : S} {b : B} → P b → Returns P (s, ok b)
  Returns-ok h = record { result_of = λ b e. subst P (ground (arith, e)) h }

  pub Returns-then :
      {A : Type 0} (s : S) (r : Result A) (k : A → S → S × Result B)
      → ((a : A) → Returns P (k a s))
      → Returns P (then_on (s, r) k)
  Returns-then s (ok a) k each = each a
  Returns-then s (err e) k each = Returns-fail s e

  -- The same, with what is known of the result.
  pub Returns-bound :
      {A : Type 0} (s : S) (r : Result A) (k : A → S → S × Result B)
      → ((a : A) → r ≡ ok a → Returns P (k a s))
      → Returns P (then_on (s, r) k)
  Returns-bound s (ok a) k each = each a refl
  Returns-bound s (err e) k each = Returns-fail s e

  pub Returns-map :
      {Q : B → Type 0} {t : S × Result B} → ((b : B) → P b → Q b) → Returns P t → Returns Q t
  Returns-map f h = record { result_of = λ b e. f b (h.result_of b e) }

  -- A result that is inspected, and what is known of it.
  pub Returns-result :
      {A : Type 0} (s : S) (r : Result A)
      → (f : A → S → S × Result B) (g : Error → S → S × Result B)
      → ((a : A) → r ≡ ok a → Returns P (f a s))
      → ((e : Error) → Returns P (g e s))
      → Returns P ((elim r as (λ r. S → S × Result B) [ ok a ↦ f a | err e ↦ g e ]) s)
  Returns-result s (ok a) f g hf hg = hf a refl
  Returns-result s (err e) f g hf hg = hg e

  pub Returns-if :
      (b : Bool) (m n : S → S × Result B) (s : S)
      → Returns P (m s)
      → Returns P (n s)
      → Returns P ((if b then m else n) s)
  Returns-if true m n s hm hn = hm
  Returns-if false m n s hm hn = hn

  -- A call of the backend, whose result is inspected.
  pub Returns-call :
      {A : Type 0} (m : S → S × Result A) (s : S)
      → (f : A → S → S × Result B) (g : Error → S → S × Result B)
      → ((a : A) → (m s).1 ≡ ok a → Returns P (f a (m s).0))
      → ((e : Error) → Returns P (g e (m s).0))
      → Returns P ((elim (m s).1 as (λ r. S → S × Result B) [ ok a ↦ f a | err e ↦ g e ]) (m s).0)
  Returns-call m s f g hf hg = Returns-result (m s).0 (m s).1 f g hf hg

  -- The same, where nothing need be known of the result.
  pub Returns-result_any :
      {A : Type 0} (s : S) (r : Result A)
      → (f : A → S → S × Result B) (g : Error → S → S × Result B) → ((a : A) → Returns P (f a s))
      → ((e : Error) → Returns P (g e s))
      → Returns P ((elim r as (λ r. S → S × Result B) [ ok a ↦ f a | err e ↦ g e ]) s)
  Returns-result_any s r f g hf hg = Returns-result s r f g (λ a _. hf a) hg

  pub Returns-call_any :
      {A : Type 0} (m : S → S × Result A) (s : S)
      → (f : A → S → S × Result B) (g : Error → S → S × Result B)
      → ((a : A) → Returns P (f a (m s).0))
      → ((e : Error) → Returns P (g e (m s).0))
      → Returns P ((elim (m s).1 as (λ r. S → S × Result B) [ ok a ↦ f a | err e ↦ g e ]) (m s).0)
  Returns-call_any m s f g hf hg = Returns-result_any (m s).0 (m s).1 f g hf hg
