-- ===== src/Store/Combat.antt =====
-- store/combat.go: the struct that is written for the damage of a melee, with FromDomain and
-- ToDomain. FromDomain sets no names, and takes the focus damage from the field for stamina.
use gomud.Base.{String, ℤ}
use gomud.Core.Data.{Uuid}
use gomud.Core.Event.{CombatMeleeDamage, combat_melee_damage}
use gomud.Store.Header.{EventHeader, DomainEvent, new_event}

pub record CombatMeleeDamageEvent : Type 0 where
  pub header : EventHeader
  pub damage_type : String
  pub attacker_id : Uuid
  pub target_id : Uuid
  pub attacker_name : String
  pub target_name : String
  pub physical_dmg : ℤ
  pub stamina_dmg : ℤ
  pub focus_dmg : ℤ

unfoldable pub combat_melee_damage_from_domain :
    EventHeader → CombatMeleeDamage → CombatMeleeDamageEvent
combat_melee_damage_from_domain h e = record {
  header = h;
  damage_type = e.damage_type;
  attacker_id = e.attacker_id;
  target_id = e.target_id;
  attacker_name = "";
  target_name = "";
  physical_dmg = e.physical_dmg;
  stamina_dmg = e.stamina_dmg;
  focus_dmg = e.stamina_dmg;
}

unfoldable pub combat_melee_damage_to_domain : CombatMeleeDamageEvent → DomainEvent
combat_melee_damage_to_domain r = new_event r.header (
    combat_melee_damage (record {
      damage_type = r.damage_type;
      attacker_id = r.attacker_id;
      target_id = r.target_id;
      attacker_name = r.attacker_name;
      target_name = r.target_name;
      physical_dmg = r.physical_dmg;
      stamina_dmg = r.stamina_dmg;
      focus_dmg = r.focus_dmg;
    }))
