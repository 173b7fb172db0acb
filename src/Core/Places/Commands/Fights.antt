-- ===== src/Core/Places/Commands/Fights.antt =====
-- Deaths, melees and migrations into a zone (core/zone.go, core/actor.go, core/combat.go).
use gomud.Base.{suc, Bool, true, false, Option, none, some, List, [], ◌∷◌, ◌++◌, ◌≡◌, refl, arith}
use gomud.Core.Data.{Ref, Uuid, Container}
use gomud.Core.Monad.{Error, Outcome, returns, M, and_then, guard, deref}
use gomud.Core.Body.{Body, actor_add_observer}
use gomud.Core.Event.{Payload, actor_remove_from_zone}
use gomud.Core.Command.{MigrateCommand, CombatMeleeCommand, Roll, dodged, hit}
use gomud.Core.Apply.{Value, nothing, actor_value, location_value, exit_value, object_value}
use gomud.Core.Zone.{State}
use gomud.Core.Process.Actors.{
  process_actor_migrate_in, migrate_in_object, migrate_in_objects, add_observers, add_observers_to,
}
use gomud.Core.Process.Deaths.{
  relocations, do_actor_death, process_actor_death, death_if, strike, melee_payloads,
  process_combat_melee,
}
use gomud.Core.Places.{IsPlaced}
use gomud.Core.Places.Steps.{SamePlaces, SamePlaces-IsPlaced, SamePlaces-refl, SamePlaces-trans}
use gomud.Core.Places.Commands.{
  Placed, returned, panicked, AllStill, is_still, Orders, ordered, unordered, disordered,
  and_then-Placed, Orders-Placed, deref-Placed, guard-Placed, submit-Placed, submit_all-Placed,
}

relocations_still :
    (b : Body) (corpse : Uuid) (id : Uuid) (ts : List (Ref × Container))
    → AllStill (relocations b corpse ts ++ actor_remove_from_zone id ∷ [])
relocations_still b corpse id [] = (refl, tt)
relocations_still b corpse id ((o, c) ∷ ts) = (refl, relocations_still b corpse id ts)

deref-Orders :
    {A : Type 0} (o : Option A) (b : Body) (f : A → M Body (List Payload))
    → ((a : A) → Orders (f a b))
    → Orders (and_then (deref o b) f)
deref-Orders none b f h = disordered
deref-Orders (some a) b f h = h a

guard-Orders :
    (test : Bool) (e : Error) (b : Body) (f : Unit {0} → M Body (List Payload))
    → IsPlaced b
    → Orders (f tt b)
    → Orders (and_then (guard test e b) f)
guard-Orders true e b f v h = h
guard-Orders false e b f v h = unordered e b v

drawn-IsPlaced : (b : Body) → IsPlaced b → IsPlaced (record b { ids_drawn = suc b.ids_drawn })
drawn-IsPlaced b v = SamePlaces-IsPlaced (ground arith) v

do_actor_death-Orders : (a : Ref) (b : Body) → IsPlaced b → Orders (do_actor_death a b)
unfolding do_actor_death
do_actor_death-Orders a b v =
    search (deref-Orders, ordered, drawn-IsPlaced, relocations_still) depth 8

pub actor_death-Placed : (a : Ref) (s : State) → IsPlaced s.body → Placed (process_actor_death a s)
unfolding process_actor_death
actor_death-Placed a s v =
    search
      (
        Orders-Placed, do_actor_death-Orders, and_then-Placed, guard-Placed, submit_all-Placed,
        returned,
      )
      depth 12

death_if-Orders : (test : Bool) (a : Ref) (b : Body) → IsPlaced b → Orders (death_if test a b)
death_if-Orders true a b v = search (deref-Orders, do_actor_death-Orders)
death_if-Orders false a b v = ordered [] b v tt

-- A first event in front.
first-Orders :
    (p : Payload) (r : Outcome Body (List Payload))
    → is_still p ≡ true
    → Orders r
    → Orders (and_then r (λ ps b. returns (p ∷ ps) b))
first-Orders p r h (ordered ps b v k) = ordered (p ∷ ps) b v (h, k)
first-Orders p r h (unordered e b v) = unordered e b v
first-Orders p r h disordered = disordered

strike-Orders :
    (c : CombatMeleeCommand) (roll : Roll) (b : Body) → IsPlaced b → Orders (strike c roll b)
unfolding strike
strike-Orders c dodged b v = ordered _ b v (refl, tt)
strike-Orders c (hit physical stamina focus) b v =
    first-Orders _ _ refl (death_if-Orders _ c.target b v)

melee_payloads-Orders :
    (c : CombatMeleeCommand) (b : Body) → IsPlaced b → Orders (melee_payloads c b)
unfolding melee_payloads
melee_payloads-Orders c b v = search (deref-Orders, guard-Orders, strike-Orders)

pub combat_melee-Placed :
    (c : CombatMeleeCommand) (s : State) → IsPlaced s.body → Placed (process_combat_melee c s)
unfolding process_combat_melee
combat_melee-Placed c s v =
    search (Orders-Placed, melee_payloads-Orders, and_then-Placed, submit_all-Placed, returned)
      depth 12

add_observers-SamePlaces :
    (a : Ref) (os : List Ref) (b : Body) → SamePlaces b (add_observers a os b)
unfolding add_observers actor_add_observer
add_observers-SamePlaces a [] b = SamePlaces-refl b
add_observers-SamePlaces a (o ∷ os) b =
    SamePlaces-trans (ground arith) (add_observers-SamePlaces a os (actor_add_observer a o b))

add_observers_to-Placed :
    (v : Value) (os : List Ref) (s : State) → IsPlaced s.body → Placed (add_observers_to v os s)
add_observers_to-Placed (actor_value a) os s v =
    returned tt _ (SamePlaces-IsPlaced (add_observers-SamePlaces a os s.body) v)
add_observers_to-Placed nothing os s v = panicked
add_observers_to-Placed (location_value a) os s v = panicked
add_observers_to-Placed (exit_value a) os s v = panicked
add_observers_to-Placed (object_value a) os s v = panicked

migrate_in_object-Placed :
    (a : Ref) (zone : Uuid) (t : Ref × Container) (s : State)
    → IsPlaced s.body
    → Placed (migrate_in_object a zone t s)
unfolding migrate_in_object
migrate_in_object-Placed a zone (o, c) s v =
    search (and_then-Placed, deref-Placed, submit-Placed, returned) depth 12

migrate_in_objects-Placed :
    (a : Ref) (zone : Uuid) (ts : List (Ref × Container)) (s : State)
    → IsPlaced s.body
    → Placed (migrate_in_objects a zone ts s)
unfolding migrate_in_objects
migrate_in_objects-Placed a zone [] s v = returned [] s v
migrate_in_objects-Placed a zone (t ∷ ts) s v =
    and_then-Placed _ _ (migrate_in_object-Placed a zone t s v) λ e u w.
      and_then-Placed _ _ (migrate_in_objects-Placed a zone ts u w) λ es x y. returned _ x y

pub actor_migrate_in-Placed :
    (c : MigrateCommand) (os : List Ref) (s : State)
    → IsPlaced s.body
    → Placed (process_actor_migrate_in c os s)
unfolding process_actor_migrate_in
actor_migrate_in-Placed c os s v =
    search
      (
        and_then-Placed, deref-Placed, submit-Placed, returned, add_observers_to-Placed,
        migrate_in_objects-Placed,
      )
      depth 20
