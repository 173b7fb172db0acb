-- ===== src/Core/Snapshot/Keeping.antt =====
-- What the appliers of core/zone.go that add to a zone do to its default location.
use gomud.Base.{String, Bool, true, false, Option, none, some, if◌then◌else◌, ◌≡◌, refl, sym, subst}
use gomud.Core.Data.{
  Ref, Uuid, ActorInventory, Container, nil_container, location_container, actor_container,
  object_container,
}
use gomud.Core.Refs.{contains}
use gomud.Core.Monad.{
  Error, Result, ok, err, Outcome, returns, fails, panics, M, and_then, some_or, deref,
}
use gomud.Core.Body.{Body, id_or_new, location_add_actor, location_add_out_exit}
use gomud.Core.Container.{container_add, with_inventory}
use gomud.Core.Event.{ActorAddToZone, LocationText, ExitText, ObjectAddToZone}
use gomud.Core.Apply.Actors.{apply_actor_add, new_actor}
use gomud.Core.Apply.Locations.{
  apply_location_add, apply_exit_add, new_location, new_exit, resolve_destination, lift_body,
}
use gomud.Core.Apply.Objects.{apply_object_add, new_object, add_if}

-- A result, if there is one, has the default location `d`.
pub data Keeps (d : Option Ref) {A : Type 0} : Outcome Body A → Type 0 where
  kept : (a : A) (t : Body) → t.default_location ≡ d → Keeps d (returns a t)
  failed : (e : Error) (t : Body) → Keeps d (fails e t)
  panicked : Keeps d panics

-- A method that fails or writes a memory with the default location `d`.
data Writes (d : Option Ref) : Result Body → Type 0 where
  refused : (e : Error) → Writes d (err e)
  written : (c : Body) → c.default_location ≡ d → Writes d (ok c)

if-Writes :
    {d : Option Ref} (c : Bool) {x y : Result Body}
    → Writes d x
    → Writes d y
    → Writes d (if c then x else y)
if-Writes true p q = p
if-Writes false p q = q

module _ {d : Option Ref} where
  pub and_then-Keeps :
      {A B : Type 0} {o : Outcome Body A} {f : A → M Body B}
      → Keeps d o
      → ((a : A) (t : Body) → t.default_location ≡ d → Keeps d (f a t))
      → Keeps d (and_then o f)
  and_then-Keeps (kept a t h) k = k a t h
  and_then-Keeps (failed e t) k = failed e t
  and_then-Keeps panicked k = panicked

  some_or-Keeps :
      {A : Type 0} (o : Option A) (e : Error) (b : Body)
      → b.default_location ≡ d
      → Keeps d (some_or o e b)
  some_or-Keeps none e b h = failed e b
  some_or-Keeps (some a) e b h = kept a b h

  deref-Keeps :
      {A : Type 0} (o : Option A) (b : Body) → b.default_location ≡ d → Keeps d (deref o b)
  deref-Keeps none b h = panicked
  deref-Keeps (some a) b h = kept a b h

  if-Keeps :
      {A : Type 0} (c : Bool) {x y : Outcome Body A}
      → Keeps d x
      → Keeps d y
      → Keeps d (if c then x else y)
  if-Keeps true p q = p
  if-Keeps false p q = q

  id_or_new-Keeps : (id : Uuid) (b : Body) → b.default_location ≡ d → Keeps d (id_or_new id b)
  id_or_new-Keeps id b h = if-Keeps _ (kept _ _ h) (kept _ _ h)

  if_default :
      (c : Bool) (x y : Body)
      → x.default_location ≡ d
      → y.default_location ≡ d
      → (if c then x else y).default_location ≡ d
  if_default true x y p q = p
  if_default false x y p q = q

  add_actor-default :
      (l a : Ref) (b : Body)
      → b.default_location ≡ d
      → (location_add_actor l a b).default_location ≡ d
  unfolding location_add_actor
  add_actor-default l a b h = if_default (contains (b.locations l).actors a) _ _ h h

  lift_body-Keeps :
      (f : Body → Result Body) (b : Body) {r : Result Body}
      → f b ≡ r
      → Writes d r
      → Keeps d (lift_body f b)
  lift_body-Keeps f b q w =
      subst (λ r. Keeps d (elim r [ ok c ↦ returns tt c | err e ↦ fails e b ])) (sym q) (lifted w)
    where
      lifted :
          {r : Result Body}
          → Writes d r
          → Keeps d (elim r [ ok c ↦ returns tt c | err e ↦ fails e b ])
      lifted (refused e) = failed e b
      lifted (written c k) = kept tt c k

  add_out_exit-Writes :
      (l x : Ref) (b : Body) → b.default_location ≡ d → Writes d (location_add_out_exit l x b)
  unfolding location_add_out_exit
  add_out_exit-Writes l x b h = search (if-Writes, refused, written) depth 6

  add_out_exit-Keeps :
      (l x : Ref) (b : Body)
      → b.default_location ≡ d
      → Keeps d (lift_body (location_add_out_exit l x) b)
  add_out_exit-Keeps l x b h =
      lift_body-Keeps (location_add_out_exit l x) b refl (add_out_exit-Writes l x b h)

  inventory-Keeps :
      (b : Body) (a : Ref) (r : Result ActorInventory)
      → b.default_location ≡ d
      → Keeps d (with_inventory b a r)
  inventory-Keeps b a (ok ai) h = kept _ _ h
  inventory-Keeps b a (err e) h = failed e b

  container_add-Keeps :
      (c : Container) (o : Ref) (sub : String) (b : Body)
      → b.default_location ≡ d
      → Keeps d (container_add c o sub b)
  unfolding container_add
  container_add-Keeps nil_container o sub b h = panicked
  container_add-Keeps (location_container none) o sub b h = panicked
  container_add-Keeps (location_container (some l)) o sub b h = if-Keeps _ (failed _ _) (kept _ _ h)
  container_add-Keeps (actor_container none) o sub b h = panicked
  container_add-Keeps (actor_container (some a)) o sub b h = inventory-Keeps b a _ h
  container_add-Keeps (object_container none) o sub b h = panicked
  container_add-Keeps (object_container (some p)) o sub b h = if-Keeps _ (failed _ _) (kept _ _ h)

  add_if-Keeps :
      (f : Bool) (c : Container) (o : Ref) (sub : String) (b : Body)
      → b.default_location ≡ d
      → Keeps d (add_if f c o sub b)
  add_if-Keeps true c o sub b h =
      and_then-Keeps (container_add-Keeps c o sub b h) (λ _ t k. deref-Keeps _ t k)
  add_if-Keeps false c o sub b h = kept _ _ h

  pub apply_location_add-Keeps :
      (e : LocationText) (b : Body) → b.default_location ≡ d → Keeps d (apply_location_add e b)
  unfolding apply_location_add new_location
  apply_location_add-Keeps e b h = search (id_or_new-Keeps, and_then-Keeps, kept) depth 12

  pub apply_actor_add-Keeps :
      (e : ActorAddToZone) (b : Body) → b.default_location ≡ d → Keeps d (apply_actor_add e b)
  unfolding apply_actor_add new_actor
  apply_actor_add-Keeps e b h =
      search (id_or_new-Keeps, some_or-Keeps, add_actor-default, and_then-Keeps, kept) depth 16

  resolve_destination-Keeps :
      (e : ExitText) (b : Body) → b.default_location ≡ d → Keeps d (resolve_destination e b)
  resolve_destination-Keeps e b h =
      if-Keeps _ (and_then-Keeps (some_or-Keeps _ _ b h) (λ a t k. kept _ t k)) (kept _ b h)

  pub apply_exit_add-Keeps :
      (e : ExitText) (b : Body) → b.default_location ≡ d → Keeps d (apply_exit_add e b)
  unfolding apply_exit_add new_exit
  apply_exit_add-Keeps e b h =
      search
        (
          id_or_new-Keeps, some_or-Keeps, resolve_destination-Keeps, add_out_exit-Keeps,
          and_then-Keeps, kept,
        )
        depth 20

  pub apply_object_add-Keeps :
      (e : ObjectAddToZone) (b : Body) → b.default_location ≡ d → Keeps d (apply_object_add e b)
  unfolding apply_object_add new_object
  apply_object_add-Keeps e b h =
      search (id_or_new-Keeps, add_if-Keeps, and_then-Keeps, kept) depth 20
