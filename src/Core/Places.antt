-- ===== src/Core/Places.antt =====
-- Where actors stand: the location that an actor points to and the actors that a location lists.
pub mod Steps
pub mod Others
pub mod Appliers
pub mod Events
pub mod Moves
pub mod Commands
use gomud.Base.{
  ℕ, suc, ◌+◌, ◌≤◌, ◌<◌, Bool, true, false, Option, none, some, List, [], ◌∷◌, ◌++◌, ◌≡◌, lookup,
  if◌then◌else◌, Map,
}
use gomud.Core.Data.{Ref, Uuid}
use gomud.Core.Refs.Laws.{count}
use gomud.Core.Body.{Body}
use gomud.Core.Process.Common.{same}

-- The actors that a location lists are those that point to it, each once; what is not allocated
-- yet plays no part; and the zone's tables hold allocated addresses only.
pub record IsPlaced (b : Body) : Type 0 where
  pub listed :
      (l a : Ref)
      → count a (b.locations l).actors ≡ (if same (b.actors a).location (some l) then 1 else 0)
  pub unplaced : (a : Ref) → b.next_ref ≤ a → (b.actors a).location ≡ none
  pub unlisted : (l : Ref) → b.next_ref ≤ l → (b.locations l).actors ≡ []
  pub known_actors : (id : Uuid) (a : Ref) → lookup id b.actors_by_id ≡ some a → a < b.next_ref
  pub known_locations :
      (id : Uuid) (l : Ref) → lookup id b.locations_by_id ≡ some l → l < b.next_ref
  pub known_default : (l : Ref) → b.default_location ≡ some l → l < b.next_ref
