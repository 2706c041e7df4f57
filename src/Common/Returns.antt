-- ===== src/Common/Returns.antt =====
-- Postconditions of a computation that may fail: what holds of the value, if there is one.
use blasthttp.Common.{◌≡◌, Bool, true, false, if◌then◌else◌, refl}
use blasthttp.Common.Result.{Result, ok, err, ◌>>=◌, >>=-eq-ok, ok_inj}
use mathlib.Core.Path.{subst}

pub record Returns {E A : Type 0} (P : A → Type 0) (r : Result E A) : Type 0 where
  pub on_ok : (a : A) → r ≡ ok a → P a

module _ {E A : Type 0} {P : A → Type 0} where
  pub ok-Returns : {a : A} → P a → Returns {E = E} P (ok a)
  ok-Returns p = record { on_ok = λ a' h. subst P (ok_inj h) p }

  pub err-Returns : {e : E} → Returns P (err e)
  err-Returns = record { on_ok = λ a' h. absurd cc }

  -- The branch that is taken, with the test.
  pub if-Returns :
      (b : Bool) {x y : Result E A}
      → (b ≡ true → Returns P x)
      → (b ≡ false → Returns P y)
      → Returns P (if b then x else y)
  if-Returns true then_ else_ = then_ refl
  if-Returns false then_ else_ = else_ refl

  pub weaken-Returns :
      {Q : A → Type 0} {r : Result E A} → Returns P r → ((a : A) → P a → Q a) → Returns Q r
  weaken-Returns p widen = record { on_ok = λ a h. widen a (p.on_ok a h) }

  pub >>=-Returns :
      {B : Type 0} {Q : B → Type 0} {r : Result E A} {f : A → Result E B}
      → Returns P r
      → ((a : A) → P a → Returns Q (f a))
      → Returns Q (r >>= f)
  >>=-Returns {r = r} {f = f} p step = record {
    on_ok = λ b h.
        let (a, first, second) = >>=-eq-ok r f h in (step a (p.on_ok a first)).on_ok b second;
  }
