-- ===== src/Core/Snapshot/Defaults.antt =====
-- The default location of core/zone.go in a snapshot and its replay.
use gomud.Base.{ℕ, Option, none, some, List, [], ◌∷◌, All, ◌≡◌, refl, ap, sym, ◌∙◌}
use gomud.Core.Data.{Ref}
use gomud.Core.Monad.{Outcome, returns, and_then}
use gomud.Core.Body.{Body}
use gomud.Core.Container.{container_id, container_subcontainer_for}
use gomud.Core.Event.{
  Payload, Event, ActorAddToZone, LocationText, ExitText, ObjectAddToZone, actor_add_to_zone,
  location_add_to_zone, exit_add_to_zone, object_add_to_zone,
}
use gomud.Core.Apply.{Value, apply_payload}
use gomud.Core.Zone.{State, back_in, finish, apply_event, replay}
use gomud.Core.Snapshot.{
  ◌>>=◌, location_snapshot, Node, actor_node, location_node, exit_node, object_node, node_snapshot,
  actor_snapshot, exit_snapshot, object_snapshot, snap_events, Visit, events_of_order, ordered_objs,
  snapshot_keys, snapshot,
}
use gomud.Core.Process.Inversion.{returns_state, and_then-eq-returns}
use gomud.Core.Snapshot.Keeping.{
  Keeps, kept, failed, panicked, and_then-Keeps, apply_location_add-Keeps, apply_actor_add-Keeps,
  apply_exit_add-Keeps, apply_object_add-Keeps,
}

-- The four kinds of events that a snapshot has.
pub data IsAdd : Payload → Type 0 where
  an_actor : (e : ActorAddToZone) → IsAdd (actor_add_to_zone e)
  a_location : (e : LocationText) → IsAdd (location_add_to_zone e)
  an_exit : (e : ExitText) → IsAdd (exit_add_to_zone e)
  an_object : (e : ObjectAddToZone) → IsAdd (object_add_to_zone e)

apply_payload-Keeps :
    {d : Option Ref} {p : Payload}
    → IsAdd p
    → (b : Body) → b.default_location ≡ d
    → Keeps d (apply_payload p b)
unfolding apply_payload
apply_payload-Keeps (an_actor e) b h =
    and_then-Keeps (apply_actor_add-Keeps e b h) (λ a t k. kept _ t k)
apply_payload-Keeps (a_location e) b h =
    and_then-Keeps (apply_location_add-Keeps e b h) (λ a t k. kept _ t k)
apply_payload-Keeps (an_exit e) b h =
    and_then-Keeps (apply_exit_add-Keeps e b h) (λ a t k. kept _ t k)
apply_payload-Keeps (an_object e) b h =
    and_then-Keeps (apply_object_add-Keeps e b h) (λ a t k. kept _ t k)

event_default :
    {d : Option Ref} (e : Event) (s : State) (r : Outcome Body (Value × List Ref)) {v : Value}
    {t : State}
    → Keeps d r
    → and_then (back_in r s) (finish e) ≡ returns v t
    → t.body.default_location ≡ d
event_default e s _ (kept (v, os) b h) q =
    ap (λ (u : State). u.body.default_location) (sym (returns_state q)) ∙ h
event_default e s _ (failed x b) q = cc
event_default e s _ panicked q = cc

replay-default :
    (es : List Event) (s : State) {t : State}
    → All (λ e. IsAdd e.payload) es
    → replay es s ≡ returns tt t
    → t.body.default_location ≡ s.body.default_location
unfolding replay apply_event
replay-default [] s a q = ap (λ (u : State). u.body.default_location) (sym (returns_state q))
replay-default (e ∷ es) s a q =
    let (v, m, first, rest) = and_then-eq-returns (apply_event e s) (λ _ t. replay es t) q in
    replay-default es m a.1 rest
    ∙ event_default e s (apply_payload e.payload s.body) (apply_payload-Keeps a.0 s.body refl) first

-- A snapshot of one node, if it does not panic.
data Makes : Option Payload → Type 0 where
  nothing_made : Makes none
  made_one : {p : Payload} → IsAdd p → Makes (some p)

bind-Makes :
    {A : Type 0} (o : Option A) (f : A → Option Payload) → ((a : A) → Makes (f a)) → Makes (o >>= f)
bind-Makes none f h = nothing_made
bind-Makes (some a) f h = h a

node_snapshot-Makes : (b : Body) (x : Node) → Makes (node_snapshot b x)
unfolding node_snapshot actor_snapshot location_snapshot exit_snapshot object_snapshot
node_snapshot-Makes b (actor_node r) =
    bind-Makes (b.actors r).location _
      (λ l. bind-Makes (b.actors r).zone _ (λ z. made_one (an_actor _)))
node_snapshot-Makes b (location_node r) =
    bind-Makes (b.locations r).zone _ (λ z. made_one (a_location _))
node_snapshot-Makes b (exit_node r) =
    bind-Makes (b.exits r).source _ (λ l. bind-Makes (b.exits r).zone _ (λ z. made_one (an_exit _)))
node_snapshot-Makes b (object_node r) = bind-Makes (b.objects r).zone _ (λ z.
    bind-Makes (container_subcontainer_for b (b.objects r).container r) _
      (λ sub. bind-Makes (container_id b (b.objects r).container) _ (λ id. made_one (an_object _))))

-- A loop that panics, or gives the events of a snapshot.
data AddsOnly : Option (List Event) → Type 0 where
  no_events : AddsOnly none
  events : {es : List Event} → All (λ e. IsAdd e.payload) es → AddsOnly (some es)

one_more :
    (n : ℕ) {o : Option Payload} {r : Option (List Event)}
    → Makes o
    → AddsOnly r
    → AddsOnly (elim o as (λ _. Option (List Event)) [
      | none ↦ none
      | some p ↦ elim r as (λ _. Option (List Event)) [
        | none ↦ none
        | some es ↦ some (record { sequence_num = n; payload = p } ∷ es)
      ]
    ])
one_more n nothing_made a = no_events
one_more n (made_one p) no_events = no_events
one_more n (made_one p) (events a) = events (p, a)

snap_events-AddsOnly : (b : Body) (n : ℕ) (xs : List Node) → AddsOnly (snap_events b n xs)
unfolding snap_events
snap_events-AddsOnly b n [] = events tt
snap_events-AddsOnly b n (x ∷ xs) =
    one_more n (node_snapshot-Makes b x) (snap_events-AddsOnly b n xs)

order-AddsOnly : (b : Body) (n : ℕ) (v : Visit) → AddsOnly (events_of_order b n v)
order-AddsOnly b n none = no_events
order-AddsOnly b n (some x) = snap_events-AddsOnly b n x.0

same_events : {xs ys : List Event} → some xs ≡ some ys → xs ≡ ys
same_events q = cc

replay_adds :
    {o : Option (List Event)} {es : List Event} (s : State) {t : State}
    → AddsOnly o
    → o ≡ some es
    → replay es s ≡ returns tt t
    → t.body.default_location ≡ s.body.default_location
replay_adds s no_events q r = cc
replay_adds s (events a) q r = replay-default _ s a (ap (λ l. replay l s) (same_events q) ∙ r)

-- A zone that replays a snapshot, of whatever zone, keeps the default location that it had: the
-- snapshot does not carry that of the zone that it was taken of.
pub replay-snapshot :
    (b : Body) (n : ℕ) {es : List Event} (s : State) {t : State}
    → snapshot b n ≡ some es
    → replay es s ≡ returns tt t
    → t.body.default_location ≡ s.body.default_location
unfolding snapshot
replay-snapshot b n s q r =
    replay_adds s (order-AddsOnly b n (ordered_objs b (snapshot_keys b))) q r
