-- ===== src/Core/Places/Steps.antt =====
-- The moves that the appliers are made of.
use gomud.Base.{◌≤◌, ◌<◌, none, some, [], ◌∷◌, ◌≡◌, if◌then◌else◌, arith, refl, sym, ◌∙◌}
use gomud.Core.Data.{Ref}
use gomud.Core.Refs.{remove}
use gomud.Core.Refs.Laws.{count, count-remove_balance, count-append, contains-count}
use gomud.Core.Body.{Body, location_remove_actor, location_add_actor, set_actor_location}
use gomud.Core.Process.Common.{same}
use gomud.Core.Places.{IsPlaced}

-- An actor walks from its location to another one.
module _ (b : Body) (a from to : Ref) (v : IsPlaced b) (known : a < b.next_ref)
    (known_to : to < b.next_ref) (here : (b.actors a).location ≡ some from) where
  abbrev walked : Body
  walked = set_actor_location a (some to) (location_add_actor to a (location_remove_actor from a b))

  walk-listed :
      (l x : Ref)
      → count x (walked.locations l).actors
        ≡ (if same (walked.actors x).location (some l) then 1 else 0)
  unfolding location_add_actor location_remove_actor
  walk-listed l x = ground (
    arith,
    v.listed l x,
    v.listed from a,
    v.listed to a,
    v.listed l a,
    count-remove_balance (b.locations from).actors a x,
    count-remove_balance (b.locations from).actors a a,
    contains-count (b.locations from).actors a,
    contains-count (b.locations to).actors a,
    contains-count (remove (b.locations from).actors a) a,
    count-append x (b.locations to).actors (a ∷ []),
    count-append x (remove (b.locations from).actors a) (a ∷ []),
  )

  -- The walk keeps everyone placed, wherever it leads.
  pub walk-IsPlaced : IsPlaced walked
  unfolding location_add_actor location_remove_actor
  walk-IsPlaced = record {
    listed = walk-listed;
    unplaced = λ x h. ground (arith, v.unplaced x);
    unlisted = λ l h. ground (arith, v.unlisted l, v.listed from a, v.unlisted from);
    known_actors = λ id x h. ground (arith, v.known_actors id x);
    known_locations = λ id l h. ground (arith, v.known_locations id l);
    known_default = λ l h. ground (arith, v.known_default l);
  }

-- An actor that stands nowhere enters a location.
module _ (b : Body) (a to : Ref) (v : IsPlaced b) (known : a < b.next_ref)
    (known_to : to < b.next_ref) (nowhere : (b.actors a).location ≡ none) where
  abbrev entered : Body
  entered = set_actor_location a (some to) (location_add_actor to a b)

  pub enter-IsPlaced : IsPlaced entered
  unfolding location_add_actor
  enter-IsPlaced = record {
    listed = λ l x. ground (
      arith,
      v.listed l x,
      v.listed to a,
      v.listed l a,
      contains-count (b.locations to).actors a,
      count-append x (b.locations to).actors (a ∷ []),
    );
    unplaced = λ x h. ground (arith, v.unplaced x);
    unlisted = λ l h. ground (arith, v.unlisted l);
    known_actors = λ id x h. ground (arith, v.known_actors id x);
    known_locations = λ id l h. ground (arith, v.known_locations id l);
    known_default = λ l h. ground (arith, v.known_default l);
  }

-- An actor leaves its location.
module _ (b : Body) (a from : Ref) (v : IsPlaced b) (here : (b.actors a).location ≡ some from) where
  abbrev left : Body
  left = set_actor_location a none (location_remove_actor from a b)

  pub leave-IsPlaced : IsPlaced left
  unfolding location_remove_actor
  leave-IsPlaced = record {
    listed = λ l x. ground (
      arith,
      v.listed l x,
      v.listed from a,
      v.listed l a,
      count-remove_balance (b.locations from).actors a x,
      count-remove_balance (b.locations from).actors a a,
      contains-count (b.locations from).actors a,
    );
    unplaced = λ x h. ground (arith, v.unplaced x);
    unlisted = λ l h. ground (arith, v.unlisted l, v.listed from a, v.unlisted from);
    known_actors = λ id x h. ground (arith, v.known_actors id x);
    known_locations = λ id l h. ground (arith, v.known_locations id l);
    known_default = λ l h. ground (arith, v.known_default l);
  }

-- What the places depend on is unchanged, and no cell has become free.
pub record SamePlaces (b c : Body) : Type 0 where
  pub actors_same : (l : Ref) → (c.locations l).actors ≡ (b.locations l).actors
  pub location_same : (a : Ref) → (c.actors a).location ≡ (b.actors a).location
  pub next_le : b.next_ref ≤ c.next_ref
  pub actors_table : c.actors_by_id ≡ b.actors_by_id
  pub locations_table : c.locations_by_id ≡ b.locations_by_id
  pub default_same : c.default_location ≡ b.default_location

pub SamePlaces-IsPlaced : {b c : Body} → SamePlaces b c → IsPlaced b → IsPlaced c
SamePlaces-IsPlaced {b} {c} e v = record {
  listed = λ l a. rw (e.actors_same l, e.location_same a) (v.listed l a);
  unplaced = λ a h. e.location_same a ∙ v.unplaced a (omega (arith, e.next_le));
  unlisted = λ l h. e.actors_same l ∙ v.unlisted l (omega (arith, e.next_le));
  known_actors = λ id a h. omega (arith, e.next_le, v.known_actors id a (rw e.actors_table at h));
  known_locations =
      λ id l h. omega (arith, e.next_le, v.known_locations id l (rw e.locations_table at h));
  known_default = λ l h. omega (arith, e.next_le, v.known_default l (sym e.default_same ∙ h));
}

pub SamePlaces-refl : (b : Body) → SamePlaces b b
SamePlaces-refl b = record {
  actors_same = λ l. refl;
  location_same = λ a. refl;
  next_le = omega arith;
  actors_table = refl;
  locations_table = refl;
  default_same = refl;
}

pub SamePlaces-trans : {a b c : Body} → SamePlaces a b → SamePlaces b c → SamePlaces a c
SamePlaces-trans p q = record {
  actors_same = λ l. q.actors_same l ∙ p.actors_same l;
  location_same = λ r. q.location_same r ∙ p.location_same r;
  next_le = omega (arith, p.next_le, q.next_le);
  actors_table = q.actors_table ∙ p.actors_table;
  locations_table = q.locations_table ∙ p.locations_table;
  default_same = q.default_same ∙ p.default_same;
}
