-- ===== src/Core/Process/Rules.antt =====
-- Rules for handlers: a property that an error and a panic always have passes through the tests
-- with which a handler begins.
use gomud.Base.{Bool, true, false, Option, none, some}
use gomud.Core.Monad.{Error, Outcome, fails, panics, M, and_then, guard, some_or, deref}

module _ {S A : Type 0} (P : Outcome S A → Type 0) (pf : (e : Error) (t : S) → P (fails e t))
    (pp : P panics) where
  pub guard-rule :
      (test : Bool) (e : Error) (s : S) (f : Unit {0} → M S A)
      → P (f tt s)
      → P (and_then (guard test e s) f)
  guard-rule true e s f h = h
  guard-rule false e s f h = pf e s

  pub some_or-rule :
      {B : Type 0} (o : Option B) (e : Error) (s : S) (f : B → M S A)
      → ((b : B) → P (f b s))
      → P (and_then (some_or o e s) f)
  some_or-rule none e s f h = pf e s
  some_or-rule (some b) e s f h = h b

  pub deref-rule :
      {B : Type 0} (o : Option B) (s : S) (f : B → M S A)
      → ((b : B) → P (f b s))
      → P (and_then (deref o s) f)
  deref-rule none s f h = pp
  deref-rule (some b) s f h = h b
