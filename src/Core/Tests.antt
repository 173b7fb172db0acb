-- ===== src/Core/Tests.antt =====
-- A small zone on which the tests and examples run: a yard, a barn and a field, a gate from the yard
-- to the barn and a lane from the barn to the field, a farmer in the yard, and a lamp on its ground.
use gomud.Base.{ℕ, ◌+◌, none, some, List, [], ◌∷◌, Option, put, pos}
use gomud.Core.Data.{
  Ref, Uuid, Location, Actor, Exit, Object, AttributeSet, ActorInventory, ActorInventoryConstraints,
  location_container, nil_container, nil_uuid,
}
use gomud.Core.Body.{Body}
use gomud.Core.Monad.{Error}
use gomud.Core.Zone.{State}
pub mod Refs
pub mod Inventory
pub mod Zone
pub mod Deaths
pub mod Restart
pub mod Snapshot

abbrev pub stats : AttributeSet
stats = record {
  total_base_cap = pos 300;
  strength = pos 100;
  strength_cap = pos 100;
  fitness = pos 100;
  fitness_cap = pos 100;
  will = pos 50;
  will_cap = pos 100;
  faith = pos 50;
  faith_cap = pos 100;
  physical = pos 100;
  stamina = pos 100;
  focus = pos 50;
  zeal = pos 50;
}

abbrev pub pockets : ActorInventory
pockets = record {
  constraints = record {
    back_slots = 64;
    back_max_items = 2;
    belt_slots = 32;
    belt_max_items = 4;
    body_slots = 64;
    body_max_items = 1;
    hand_slots = 64;
    hand_max_items = 2;
  };
  back = [];
  belt = [];
  body = [];
  hands = [];
}

abbrev place : Uuid → List Ref → List Ref → List Ref → Location
place id actors objects exits = record {
  id = id;
  zone = some 0;
  short_description = "";
  description = "";
  actors = actors;
  objects = objects;
  out_exits = exits;
  observers = [];
}

abbrev person : Uuid → Option Ref → Actor
person id at = record {
  id = id;
  name = "farmer";
  location = at;
  zone = some 0;
  observers = [];
  brain_type = "";
  inventory = pockets;
  attributes = stats;
}

abbrev pub gate : Exit
gate = record {
  id = 13;
  description = "a gate";
  direction = "north";
  source = some 1;
  destination = some 2;
  zone = some 0;
  other_zone_id = nil_uuid;
  other_zone_loc_id = nil_uuid;
}

abbrev lane : Exit
lane = record gate { id = 17; description = "a lane"; source = some 2; destination = some 6 }

abbrev lamp : Object
lamp = record {
  id = 15;
  name = "lamp";
  description = "";
  inventory_slots = 16;
  keywords = "lamp" ∷ [];
  container = location_container (some 1);
  zone = some 0;
  container_capacity = 0;
  contained_objects = [];
}

abbrev pub farm : Body
farm = record {
  locations =
      put
        (put (put (λ _. place 0 [] [] []) 1 (place 11 (4 ∷ []) (5 ∷ []) (3 ∷ []))) 2
          (place 12 [] [] (7 ∷ [])))
        6 (place 16 [] [] []);
  actors = put (λ _. person 0 none) 4 (person 14 (some 1));
  exits = put (λ _. gate) 7 lane;
  objects = λ _. lamp;
  next_ref = 8;
  stack = 100;
  new_ids = λ n. 100 + n;
  ids_drawn = 0;
  zone_ids = λ _. 10;
  evicted = [];
  self = 0;
  default_location = some 1;
  actors_by_id = (14, 4) ∷ [];
  locations_by_id = (11, 1) ∷ (12, 2) ∷ (16, 6) ∷ [];
  exits_by_id = (13, 3) ∷ (17, 7) ∷ [];
  objects_by_id = (15, 5) ∷ [];
}

-- With a persister that takes every event.
abbrev pub farm_zone : State
farm_zone = record {
  body = farm;
  next_sequence_id = 7;
  sent = [];
  persister = some (λ _. none);
  persisted = [];
}
