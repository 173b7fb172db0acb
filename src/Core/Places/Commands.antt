-- ===== src/Core/Places/Commands.antt =====
-- The places of the actors in the code that the handlers of core/zone.go are made of.
pub mod Handlers
pub mod Fights
pub mod Runs
use gomud.Base.{ℕ, Bool, true, false, Option, none, some, List, [], ◌∷◌, ◌≡◌, refl, All}
use gomud.Core.Data.{Ref}
use gomud.Core.Monad.{Error, Outcome, returns, fails, panics, M, and_then, guard, some_or, deref}
use gomud.Core.Body.{Body}
use gomud.Core.Event.{Event, Payload, actor_move}
use gomud.Core.Apply.{Value, apply_payload}
use gomud.Core.Zone.{State, next_number, back_in, finish, apply_event, submit, submit_all}
use gomud.Core.Process.Locations.{for_each}
use gomud.Core.Places.{IsPlaced}
use gomud.Core.Places.Others.{memory_after}
use gomud.Core.Places.Events.{IsInPlace, apply_payload-IsPlaced}

-- The actors are placed in the state that code ends in, if it does not panic.
pub data Placed {A : Type 0} : Outcome State A → Type 0 where
  returned : (a : A) (t : State) → IsPlaced t.body → Placed (returns a t)
  failed : (e : Error) (t : State) → IsPlaced t.body → Placed (fails e t)
  panicked : Placed panics

abbrev pub is_still : Payload → Bool
is_still (actor_move e) = false
is_still _ = true

-- No event of the list moves an actor through an exit.
abbrev pub AllStill : List Payload → Type 0
AllStill = All (λ p. is_still p ≡ true)

-- The same for code that works out a list of payloads in the zone's memory.
pub data Orders : Outcome Body (List Payload) → Type 0 where
  ordered : (ps : List Payload) (b : Body) → IsPlaced b → AllStill ps → Orders (returns ps b)
  unordered : (e : Error) (b : Body) → IsPlaced b → Orders (fails e b)
  disordered : Orders panics

still-IsInPlace : (p : Payload) (b : Body) → is_still p ≡ true → IsInPlace p b
still-IsInPlace (actor_move e) b h = cc
still-IsInPlace _ b h = tt

module _ {A : Type 0} where
  pub and_then-Placed :
      {B : Type 0} (r : Outcome State B) (f : B → M State A)
      → Placed r
      → ((b : B) (t : State) → IsPlaced t.body → Placed (f b t))
      → Placed (and_then r f)
  and_then-Placed r f (returned b t v) h = h b t v
  and_then-Placed r f (failed e t v) h = failed e t v
  and_then-Placed r f panicked h = panicked

  pub Orders-Placed :
      (r : Outcome Body (List Payload)) (s : State) (f : List Payload → M State A)
      → Orders r
      → ((ps : List Payload) (t : State) → IsPlaced t.body → AllStill ps → Placed (f ps t))
      → Placed (and_then (back_in r s) f)
  Orders-Placed r s f (ordered ps b v k) h = h ps (record s { body = b }) v k
  Orders-Placed r s f (unordered e b v) h = failed e (record s { body = b }) v
  Orders-Placed r s f disordered h = panicked

  pub some_or-Placed :
      (o : Option A) (e : Error) (s : State) → IsPlaced s.body → Placed (some_or o e s)
  some_or-Placed none e s v = failed e s v
  some_or-Placed (some a) e s v = returned a s v

  pub deref-Placed : (o : Option A) (s : State) → IsPlaced s.body → Placed (deref o s)
  deref-Placed none s v = panicked
  deref-Placed (some a) s v = returned a s v

pub guard-Placed : (test : Bool) (e : Error) (s : State) → IsPlaced s.body → Placed (guard test e s)
guard-Placed true e s v = returned tt s v
guard-Placed false e s v = failed e s v

finish_outcome :
    {A : Type 0} (b : Body) (s : State) (e : Event) (r : Outcome Body (Value × List Ref))
    (f : Value → M State A)
    → ((v : Value) (t : State) → IsPlaced t.body → Placed (f v t))
    → IsPlaced (memory_after b r)
    → Placed (and_then (and_then (back_in r s) (finish e)) f)
finish_outcome b s e (returns (v, os) c) f h p = h v _ p
finish_outcome b s e (fails x c) f h p = failed x (record s { body = c }) p
finish_outcome b s e panics f h p = panicked

-- One event that is in place.
pub in_place-Placed :
    (p : Payload) (s : State) → IsPlaced s.body → IsInPlace p s.body → Placed (submit p s)
unfolding submit apply_event
in_place-Placed p s v h =
    finish_outcome s.body _ _ (apply_payload p s.body) _ (λ x t w. returned _ t w)
      (apply_payload-IsPlaced p s.body v h)

pub submit-Placed :
    (p : Payload) (s : State) → IsPlaced s.body → is_still p ≡ true → Placed (submit p s)
submit-Placed p s v h = in_place-Placed p s v (still-IsInPlace p s.body h)

pub submit_all-Placed :
    (ps : List Payload) (s : State) → IsPlaced s.body → AllStill ps → Placed (submit_all ps s)
unfolding submit_all
submit_all-Placed [] s v h = returned [] s v
submit_all-Placed (p ∷ ps) s v h = and_then-Placed (submit p s) _ (submit-Placed p s v h.0) λ r t w.
    and_then-Placed (submit_all ps t) _ (submit_all-Placed ps t w h.1) λ es u x. returned _ u x

pub for_each-Placed :
    (rs : List Ref) (f : Ref → M State (Value × List Event)) (s : State)
    → ((r : Ref) (t : State) → IsPlaced t.body → Placed (f r t))
    → IsPlaced s.body
    → Placed (for_each rs f s)
unfolding for_each
for_each-Placed [] f s h v = returned tt s v
for_each-Placed (r ∷ rs) f s h v =
    and_then-Placed (f r s) _ (h r s v) λ x t w. for_each-Placed rs f t h w
