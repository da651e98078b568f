-- ===== src/Base/Kept.antt =====
-- What a method keeps true of the state, read off its code: a rule for each way in which a method
-- goes on after a call.
use mathlib.Core.Bool.{Bool, true, false}
use arcticwolf.Base.Tests.{if◌then◌else◌}
use arcticwolf.Base.Errors.{Error, Result, ok, err, then_on}

-- The state that a method leaves has the property.
pub record Kept {S A : Type 0} (P : S → Type 0) (t : S × Result A) : Type 0 where
  pub state : P t.0

pub kept : {S A : Type 0} {P : S → Type 0} {s : S} {r : Result A} → P s → Kept P (s, r)
kept p = record { state = p }

pub Kept-if :
    {S A : Type 0} {P : S → Type 0} {s : S} (b : Bool) (m n : S → S × Result A)
    → Kept P (m s)
    → Kept P (n s)
    → Kept P ((if b then m else n) s)
Kept-if true m n hm hn = hm
Kept-if false m n hm hn = hn

module _ {S A B : Type 0} {P : S → Type 0} where
  -- `?` after a call that has left the state `s`.
  pub Kept-then :
      {s : S} (r : Result A) (k : A → S → S × Result B)
      → P s
      → ((a : A) → Kept P (k a s))
      → Kept P (then_on (s, r) k)
  Kept-then (ok a) k p each = each a
  Kept-then (err e) k p each = kept p

  -- A result that is inspected.
  pub Kept-result :
      {s : S} (r : Result A) (f : A → S → S × Result B) (g : Error → S → S × Result B)
      → ((a : A) → Kept P (f a s))
      → ((e : Error) → Kept P (g e s))
      → Kept P ((elim r as (λ r. S → S × Result B) [ ok a ↦ f a | err e ↦ g e ]) s)
  Kept-result (ok a) f g hf hg = hf a
  Kept-result (err e) f g hf hg = hg e
