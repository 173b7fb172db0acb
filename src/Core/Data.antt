-- ===== src/Core/Data.antt =====
-- The records of core/location.go, core/actor.go, core/exit.go, core/object.go,
-- core/actorinventory.go and core/attributes.go. A pointer is the address of a cell of the heap; nil
-- is `none`. A UUID is the number that its sixteen bytes write, so uuid.Nil is 0.
use gomud.Base.{ℕ, List, Option, String, ℤ}

abbrev pub Ref : Type 0
Ref = ℕ

abbrev pub Uuid : Type 0
Uuid = ℕ

abbrev pub nil_uuid : Uuid
nil_uuid = 0

-- The integer fields; the four damage fields are floats, which only the dice rolls read.
pub record AttributeSet : Type 0 where
  pub total_base_cap : ℤ
  pub strength : ℤ
  pub strength_cap : ℤ
  pub fitness : ℤ
  pub fitness_cap : ℤ
  pub will : ℤ
  pub will_cap : ℤ
  pub faith : ℤ
  pub faith_cap : ℤ
  pub physical : ℤ
  pub stamina : ℤ
  pub focus : ℤ
  pub zeal : ℤ

-- Configured limits, which are not negative.
pub record ActorInventoryConstraints : Type 0 where
  pub back_slots : ℕ
  pub back_max_items : ℕ
  pub belt_slots : ℕ
  pub belt_max_items : ℕ
  pub body_slots : ℕ
  pub body_max_items : ℕ
  pub hand_slots : ℕ
  pub hand_max_items : ℕ

pub record ActorInventory : Type 0 where
  pub constraints : ActorInventoryConstraints
  pub back : List Ref
  pub belt : List Ref
  pub body : List Ref
  pub hands : List Ref

-- A value of the interface type Container: nil, or a pointer with its dynamic type. A pointer of a
-- known type may itself be nil, and then the interface value is not.
pub data Container : Type 0 where
  nil_container : Container
  location_container : Option Ref → Container
  actor_container : Option Ref → Container
  object_container : Option Ref → Container

pub record Location : Type 0 where
  pub id : Uuid
  pub zone : Option Ref
  pub short_description : String
  pub description : String
  pub actors : List Ref
  pub objects : List Ref
  pub out_exits : List Ref
  pub observers : List Ref

-- The skills are floats and the delays are wall-clock times: the zone only copies them.
pub record Actor : Type 0 where
  pub id : Uuid
  pub name : String
  pub location : Option Ref
  pub zone : Option Ref
  pub observers : List Ref
  pub brain_type : String
  pub inventory : ActorInventory
  pub attributes : AttributeSet

pub record Exit : Type 0 where
  pub id : Uuid
  pub description : String
  pub direction : String
  pub source : Option Ref
  pub destination : Option Ref
  pub zone : Option Ref
  pub other_zone_id : Uuid
  pub other_zone_loc_id : Uuid

-- The slots and the capacity are `int` in the source and natural numbers here.
pub record Object : Type 0 where
  pub id : Uuid
  pub name : String
  pub description : String
  pub inventory_slots : ℕ
  pub keywords : List String
  pub container : Container
  pub zone : Option Ref
  pub container_capacity : ℕ
  pub contained_objects : List Ref
