-- ===== src/Core/Process/Deaths.antt =====
-- doActorDeath of core/actor.go, processActorDeathCommand and processCombatMeleeCommand of
-- core/zone.go, and the decisions of core/combat.go around its dice.
use Prim.Native.String.{◌++◌ as text_append}
use gomud.Base.{Bool, true, false, some, List, [], ◌∷◌, ◌++◌, str_eq, ◌||◌, ℤ, pos, ◌-ℤ◌, leb_ℤ}
use gomud.Core.Data.{Ref, Uuid, Container, actor_container, nil_uuid, AttributeSet}
use gomud.Core.Inventory.{default_subcontainer}
use gomud.Core.Monad.{
  returns, M, ◌>>=◌, ◌>>◌, and_then, pure, get, guard, deref, actor_not_in_zone, not_same_location,
  unknown_damage_type,
}
use gomud.Core.Body.{Body, id_or_new}
use gomud.Core.Event.{
  Event, Payload, actor_death, object_add_to_zone, object_admin_relocate, actor_remove_from_zone,
  combat_dodge, combat_melee_damage,
}
use gomud.Core.Command.{CombatMeleeCommand, Roll, dodged, hit}
use gomud.Core.Apply.{Value, nothing}
use gomud.Core.Zone.{State, submit_all, on_body}
use gomud.Core.Process.Common.{body, same, object_container_tuples}
use gomud.Core.Process.Actors.{is_here}

abbrev pub relocations : Body → Uuid → List (Ref × Container) → List Payload
relocations b corpse [] = []
relocations b corpse ((o, c) ∷ ts) =
    object_admin_relocate (record {
      object_id = (b.objects o).id;
      to_ids = record { location_id = nil_uuid; actor_id = nil_uuid; object_id = corpse };
      to_subcontainer = "";
    })
    ∷ relocations b corpse ts

-- The events of a death: the death, a corpse with a new identifier where the actor stands, the
-- relocation of all that the actor carries to the corpse, and the removal of the actor. The
-- corpse's prototype is never part of the zone, and only its snapshot is used.
unfoldable pub do_actor_death : Ref → M Body (List Payload)
do_actor_death actor = do
  corpse ← id_or_new nil_uuid
  b ← get
  loc ← deref (b.actors actor).location
  tuples ← deref (object_container_tuples b.stack b (actor_container (some actor)))
  let a = b.actors actor
  pure (
      actor_death (record { actor_name = a.name; actor_id = a.id })
        ∷ object_add_to_zone (record {
          object_id = corpse;
          name = text_append a.name "'s corpse";
          description = "The empty husk of what was once a living thing.";
          keywords = "corpse" ∷ [];
          container_ids = record {
            location_id = (b.locations loc).id;
            actor_id = nil_uuid;
            object_id = nil_uuid;
          };
          subcontainer = default_subcontainer;
          capacity = 100;
        })
        ∷ relocations b corpse tuples
      ++ actor_remove_from_zone a.id ∷ [])

unfoldable pub process_actor_death : Ref → M State (Value × List Event)
unfolding do_actor_death
process_actor_death actor = do
  b ← body
  guard (is_here actor b) actor_not_in_zone
  ps ← on_body (do_actor_death actor)
  es ← submit_all ps
  pure (nothing, es)

-- addDeathEventIfNeeded: does the damage use up an attribute?
unfoldable pub is_fatal : AttributeSet → ℤ → ℤ → ℤ → Bool
unfolding ◌-ℤ◌
is_fatal attrs physical_dmg stamina_dmg focus_dmg =
    leb_ℤ (attrs.physical -ℤ physical_dmg) (pos 0)
    || leb_ℤ (attrs.stamina -ℤ stamina_dmg) (pos 0)
    || leb_ℤ (attrs.focus -ℤ focus_dmg) (pos 0)

abbrev pub death_if : Bool → Ref → M Body (List Payload)
death_if true target b = and_then (deref (b.actors target).zone b) (λ _ c. do_actor_death target c)
death_if false target b = returns [] b

-- doSlash and doBite after their dice.
unfoldable pub strike : CombatMeleeCommand → Roll → M Body (List Payload)
unfolding is_fatal do_actor_death
strike c dodged b =
    returns
      (combat_dodge (record {
        damage_type = c.damage_type;
        attacker_name = (b.actors c.attacker).name;
        target_name = (b.actors c.target).name;
        attacker_id = (b.actors c.attacker).id;
        target_id = (b.actors c.target).id;
      })
        ∷ [])
      b
strike c (hit physical stamina focus) b =
    and_then (death_if (is_fatal (b.actors c.target).attributes physical stamina focus) c.target b)
      (λ deaths d.
        returns
          (combat_melee_damage (record {
            damage_type = c.damage_type;
            attacker_id = (b.actors c.attacker).id;
            target_id = (b.actors c.target).id;
            attacker_name = (b.actors c.attacker).name;
            target_name = (b.actors c.target).name;
            physical_dmg = physical;
            stamina_dmg = stamina;
            focus_dmg = focus;
          })
            ∷ deaths)
          d)

-- `Do()`: only a slash and a bite are known. Every event names the attacker's zone, and a nil zone
-- panics.
unfoldable pub melee_payloads : CombatMeleeCommand → M Body (List Payload)
unfolding strike
melee_payloads c = do
  b ← get
  guard (same (b.actors c.attacker).location (b.actors c.target).location) not_same_location
  guard (str_eq c.damage_type "slash" || str_eq c.damage_type "bite") unknown_damage_type
  _attacker_zone ← deref (b.actors c.attacker).zone
  strike c c.roll

unfoldable pub process_combat_melee : CombatMeleeCommand → M State (Value × List Event)
unfolding melee_payloads
process_combat_melee c = do ps ← on_body (melee_payloads c); es ← submit_all ps; pure (nothing, es)
