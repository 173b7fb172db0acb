-- ===== src/Store/Restart.antt =====
-- A zone of core/zone.go whose persister is the event store of store/store.go, and the zone that is
-- loaded from it.
use gomud.Base.{
  ℕ, suc, ◌+◌, ◌-◌, ◌^◌, ◌≤◌, ◌<◌, Bool, true, none, some, List, [], ◌∷◌, ◌++◌, length, map, All,
  ◌≡◌, refl, ap, sym, ◌∙◌, subst, arith,
}
use gomud.Core.Data.{Uuid}
use gomud.Core.Monad.{returns}
use gomud.Core.Event.{Event}
use gomud.Core.Command.{Command}
use gomud.Core.Zone.{State, replay, next_number}
use gomud.Core.Process.Recorded.{Numbered}
use gomud.Core.Process.Log.Handlers.{records_itself}
use gomud.Core.Process.Log.Persisted.{TakesAll}
use gomud.Core.Process.Log.Restart.{run, run-Logged}
use gomud.Store.Header.{DomainEvent}
use gomud.Store.Conversions.{recalled, recalled_event}
use gomud.Store.Stream.{Codec, value}
use gomud.Store.Stream.RoundTrip.{Inflates}
use gomud.Store.EventStore.{
  EventStore, find_snapshot, find_previous_snapshot, retrieve_all_for_zone, retrieve_up_to,
  content_of,
}
use gomud.Store.EventStore.RoundTrip.{
  AllWritable, Holds, Holds-nothing, persist_each, persist_each_lem,
}
use gomud.Store.EventStore.Range.{Ascends, in_range, without_snapshot}

-- What a zone reads of an event.
abbrev pub core_event : DomainEvent → Event
core_event e = record { sequence_num = e.sequence_num; payload = e.payload }

-- An event of the zone that the store recalls without a loss.
abbrev pub IsOf : Uuid → DomainEvent → Type 0
IsOf zone e = (e.aggregate_id ≡ zone) × (recalled e.payload ≡ e.payload)

at_least :
    (zone : Uuid) (n m : ℕ) (es : List DomainEvent)
    → Numbered m (map core_event es)
    → m + length es < 2 ^ 64
    → n ≤ m
    → All (λ d. d.aggregate_id ≡ zone → n ≤ d.sequence_num) es
at_least zone n m [] q h p = tt
at_least zone n m (e ∷ es) q h p =
    ((λ _. omega (arith, q.0)), at_least zone n (next_number m) es q.1 (omega arith) (omega arith))

-- Numbers that are given without gaps ascend.
Numbered-Ascends :
    (zone : Uuid) (n : ℕ) (es : List DomainEvent)
    → Numbered n (map core_event es)
    → n + length es < 2 ^ 64
    → Ascends zone es
Numbered-Ascends zone n [] q h = tt
Numbered-Ascends zone n (e ∷ es) q h = (
  (λ _. at_least zone e.sequence_num (next_number n) es q.1 (omega arith) (omega (arith, q.0))),
  Numbered-Ascends zone (next_number n) es q.1 (omega arith),
)

whole_range :
    (zone : Uuid) (es : List DomainEvent)
    → All (λ e. (e.aggregate_id ≡ zone) × (e.sequence_num < 2 ^ 64)) es
    → in_range zone 0 (2 ^ 64 - 1) es ≡ es
whole_range zone [] h = refl
whole_range zone (e ∷ es) h = ground (arith, h.0.0, h.0.1, whole_range zone es h.1)

module _ (c : Codec) (z : Bool) (zone : Uuid) where
  recalled_fit :
      (es : List DomainEvent)
      → AllWritable c z es
      → All (IsOf zone) es
      → All (λ e. (e.aggregate_id ≡ zone) × (e.sequence_num < 2 ^ 64)) (map recalled_event es)
  recalled_fit [] ws h = tt
  recalled_fit (e ∷ es) ws h = ((h.0.0, ws.0.1.number_fits), recalled_fit es ws.1 h.1)

  recalled_same :
      (es : List DomainEvent)
      → All (IsOf zone) es
      → map core_event (map recalled_event es) ≡ map core_event es
  recalled_same [] h = refl
  recalled_same (e ∷ es) h =
      ap {B = List Event}
        (λ p.
          (record { sequence_num = e.sequence_num; payload = p })
          ∷ map core_event (map recalled_event es))
        h.0.1
      ∙ ap (λ l. core_event e ∷ l) (recalled_same es h.1)

tail_of : {x y : Event} {xs ys : List Event} → x ∷ xs ≡ y ∷ ys → xs ≡ ys
tail_of q = cc

same_tail : (log xs ys : List Event) → log ++ xs ≡ log ++ ys → xs ≡ ys
same_tail [] xs ys q = q
same_tail (e ∷ log) xs ys q = same_tail log xs ys (tail_of q)

length_recalled : (es : List DomainEvent) → length (map recalled_event es) ≡ length es
length_recalled [] = refl
length_recalled (e ∷ es) = ap suc (length_recalled es)

module _ (c : Codec) where
  -- What a zone gets back from a store and replays.
  pub record IsReloaded (zone : Uuid) (store : EventStore) (s t : State) : Type 0 where
    pub events : List DomainEvent
    pub retrieved : retrieve_all_for_zone c zone store ≡ some (map value events)
    pub replayed :
        replay (map core_event events) s ≡ returns tt (record t { persisted = s.persisted })

module _ (c : Codec) (inflates : Inflates c) where
  -- Events of one zone, numbered without gaps, come back from a new store as they are recalled.
  retrieve_zone_events :
      (zone : Uuid) (n : ℕ) (e : DomainEvent) (es : List DomainEvent) (store : EventStore)
      → store.file ≡ none
      → store.snapshots ≡ []
      → AllWritable c store.use_compression (e ∷ es)
      → All (IsOf zone) (e ∷ es)
      → Numbered n (map core_event (e ∷ es))
      → n + length (e ∷ es) < 2 ^ 64
      → retrieve_all_for_zone c zone (persist_each c (e ∷ es) store)
        ≡ some (map value (map recalled_event (e ∷ es)))
  unfolding retrieve_all_for_zone find_previous_snapshot find_snapshot
  retrieve_zone_events zone n e es store new bare ws ours numbered small =
      let ds = map recalled_event (e ∷ es) in
      let (bs, same, held) =
        persist_each_lem c inflates e es store [] ws
          (subst (λ f. Holds c (content_of f) []) (sym new) (Holds-nothing c)) in
      let asc =
        Numbered-Ascends zone n ds
          (subst (Numbered n) (sym (recalled_same c store.use_compression zone (e ∷ es) ours))
            numbered)
          (omega (arith, length_recalled es)) in
      ap (retrieve_up_to c (2 ^ 64 - 1) zone) same
      ∙ without_snapshot c (2 ^ 64 - 1) zone (record store { file = some bs }) bs ds refl held asc
          (ap (λ fs. find_snapshot (2 ^ 64 - 1) zone fs 0 none) bare)
      ∙ ap (λ l. some (map value l))
          (whole_range zone ds (recalled_fit c store.use_compression zone (e ∷ es) ws ours))

  -- A zone answers commands, none of which is an actor death, a migration in, a location removal or a
  -- melee, and has a persister that takes every event. If the events that this run has persisted, one at
  -- least, are written to a new event store, with the zone's identifier, in a form that the store handles,
  -- recalls without a loss and encoding/json and compress/flate give back, and their numbers stay
  -- below the last of 64 bits, then what the store retrieves for the zone replays from the state
  -- before the run to the state after it, but for the log.
  pub run-IsReloaded :
      (cs : List Command) (s : State) {t : State} (zone : Uuid) (store : EventStore)
      (e : DomainEvent) (es : List DomainEvent)
      → All (λ k. records_itself k ≡ true) cs
      → TakesAll s
      → run cs s ≡ returns tt t
      → t.persisted ≡ s.persisted ++ map core_event (e ∷ es)
      → store.file ≡ none
      → store.snapshots ≡ []
      → AllWritable c store.use_compression (e ∷ es)
      → All (IsOf zone) (e ∷ es)
      → s.next_sequence_id + length (e ∷ es) < 2 ^ 64
      → IsReloaded c zone (persist_each c (e ∷ es) store) s t
  run-IsReloaded cs s zone store e es taken takes passed written new bare ws ours small =
      let logged = run-Logged cs s taken takes passed in
      let same =
        same_tail s.persisted (map core_event (e ∷ es)) logged.events
          (sym written ∙ logged.appended) in
      record {
        events = map recalled_event (e ∷ es);
        retrieved =
            retrieve_zone_events zone s.next_sequence_id e es store new bare ws ours
              (subst (Numbered s.next_sequence_id) (sym same) logged.numbered) small;
        replayed =
            ap (λ l. replay l s) (recalled_same c store.use_compression zone (e ∷ es) ours ∙ same)
            ∙ logged.reproduced;
      }
