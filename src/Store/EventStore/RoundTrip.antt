-- ===== src/Store/EventStore/RoundTrip.antt =====
-- PersistEvent, PersistSnapshot and RetrieveAll of store/store.go, over writeEvent and readEvent.
use mathlib.Core.List.{append_assoc, append-nil}
use gomud.Base.{
  ℕ, Bool, Option, none, some, List, [], ◌∷◌, ◌++◌, map, All, ◌≡◌, refl, ap, sym, ◌∙◌, subst,
}
use gomud.Store.Header.{DomainEvent}
use gomud.Store.Structs.{Stored}
use gomud.Store.Conversions.{recalled_event}
use gomud.Store.Stream.{
  Codec, Response, value, write_struct, write_event, read_event, read_loop, retrieve_all_from,
}
use gomud.Store.Stream.RoundTrip.{Inflates, IsWritable, read_event-write_struct}
use gomud.Store.Stream.Termination.{retrieve_all_from-read}
use gomud.Store.EventStore.{
  EventStore, StoreError, unhandled_event_type, content_of, persist_event, retrieve_all,
  write_snapshot,
}

abbrev pub AllWritable : Codec → Bool → List DomainEvent → Type 0
AllWritable c z = All (λ e. (r : Stored) × IsWritable c z e r)

-- Bytes that are read as the given events, whatever comes behind them.
abbrev pub Holds : Codec → List ℕ → List DomainEvent → Type 0
Holds c bs es =
    (rest : List ℕ) → retrieve_all_from c (bs ++ rest) ≡ map value es ++ retrieve_all_from c rest

-- PersistEvent for one event after the other.
unfoldable pub persist_each : Codec → List DomainEvent → EventStore → EventStore
persist_each c [] s = s
persist_each c (e ∷ es) s = persist_each c es (persist_event c e s).1

pub map_append :
    (f : DomainEvent → Response) (xs ys : List DomainEvent)
    → map f (xs ++ ys) ≡ map f xs ++ map f ys
map_append f [] ys = refl
map_append f (x ∷ xs) ys = ap (λ l. f x ∷ l) (map_append f xs ys)

module _ (c : Codec) where
  pub Holds-nothing : Holds c [] []
  Holds-nothing rest = refl

  pub Holds-append :
      (xs ys : List ℕ) (ds es : List DomainEvent)
      → Holds c xs ds
      → Holds c ys es
      → Holds c (xs ++ ys) (ds ++ es)
  Holds-append xs ys ds es p q rest =
      ap (retrieve_all_from c) (append_assoc xs ys rest)
      ∙ p (ys ++ rest)
      ∙ ap (λ l. map value ds ++ l) (q rest)
      ∙ sym (append_assoc (map value ds) (map value es) (retrieve_all_from c rest))
      ∙ ap (λ l. l ++ retrieve_all_from c rest) (sym (map_append value ds es))

  -- Bytes that hold events and nothing behind them are read as these events.
  pub retrieve_all_from-Holds :
      (bs : List ℕ) (es : List DomainEvent) → Holds c bs es → retrieve_all_from c bs ≡ map value es
  unfolding retrieve_all_from read_loop read_event
  retrieve_all_from-Holds bs es p =
      ap (retrieve_all_from c) (sym (append-nil bs)) ∙ p [] ∙ append-nil (map value es)

module _ (c : Codec) (inflates : Inflates c) where
  pub write_struct-Holds :
      (z : Bool) (e : DomainEvent) (r : Stored)
      → IsWritable c z e r
      → Holds c (write_struct c z r) (recalled_event e ∷ [])
  write_struct-Holds z e r w rest =
      retrieve_all_from-read c (write_struct c z r ++ rest)
        (read_event-write_struct c inflates z e r w rest)

  pub write_event-writes :
      (z : Bool) (e : DomainEvent) (r : Stored)
      → IsWritable c z e r
      → write_event c z e ≡ some (write_struct c z r)
  unfolding write_event
  write_event-writes z e r w =
      ap {B = Option (List ℕ)} (λ o. elim o [ none ↦ none | some x ↦ some (write_struct c z x) ])
        w.handled

  -- PersistEvent appends to a file what is read as the event.
  persist_event_lem :
      (e : DomainEvent) (s : EventStore) (r : Stored)
      → IsWritable c s.use_compression e r
      → persist_event c e s
        ≡ (none, record s { file = some (content_of s.file ++ write_struct c s.use_compression r) })
  unfolding persist_event
  persist_event_lem e s r w =
      ap {B = Option StoreError × EventStore}
        (λ o. elim o [
          | none ↦ (some unhandled_event_type, record s { file = some (content_of s.file) })
          | some bs ↦ (none, record s { file = some (content_of s.file ++ bs) })
        ])
        (write_event-writes s.use_compression e r w)

  -- A file that holds the old events comes to hold the new ones behind them.
  persist_each-appended :
      (es : List DomainEvent) (s : EventStore) (bs : List ℕ) (old : List DomainEvent)
      → AllWritable c s.use_compression es
      → Holds c bs old
      → (more : List ℕ) × (persist_each c es (record s { file = some bs })
          ≡ record s { file = some more })
        × Holds c more (old ++ map recalled_event es)
  unfolding persist_each
  persist_each-appended [] s bs old ws h = (bs, refl, subst (Holds c bs) (sym (append-nil old)) h)
  persist_each-appended (e ∷ es) s bs old ((r, w), ws) h =
      let more = bs ++ write_struct c s.use_compression r in
      let longer =
        Holds-append c bs (write_struct c s.use_compression r) old (recalled_event e ∷ []) h
          (write_struct-Holds s.use_compression e r w) in
      let (end, same, all) =
        persist_each-appended es s more (old ++ recalled_event e ∷ []) ws longer in
      (
        end,
        ap (λ (x : Option StoreError × EventStore). persist_each c es x.1)
              (persist_event_lem e (record s { file = some bs }) r w)
            ∙ same,
        subst (Holds c end) (append_assoc old (recalled_event e ∷ []) (map recalled_event es)) all,
      )

  pub persist_each_lem :
      (e : DomainEvent) (es : List DomainEvent) (s : EventStore) (old : List DomainEvent)
      → AllWritable c s.use_compression (e ∷ es)
      → Holds c (content_of s.file) old
      → (more : List ℕ) × (persist_each c (e ∷ es) s ≡ record s { file = some more })
        × Holds c more (old ++ map recalled_event (e ∷ es))
  unfolding persist_each persist_event
  persist_each_lem e es s old ws h = persist_each-appended (e ∷ es) s (content_of s.file) old ws h

  -- Events that are persisted one after the other, in a new file or behind the events that a file
  -- holds, are read back by RetrieveAll in the order in which they were written, as the store
  -- recalls them.
  pub retrieve_all-persist_each :
      (e : DomainEvent) (es : List DomainEvent) (s : EventStore) (old : List DomainEvent)
      → AllWritable c s.use_compression (e ∷ es)
      → Holds c (content_of s.file) old
      → retrieve_all c (persist_each c (e ∷ es) s)
        ≡ some (map value (old ++ map recalled_event (e ∷ es)))
  unfolding retrieve_all
  retrieve_all-persist_each e es s old ws h =
      let (more, same, all) = persist_each_lem e es s old ws h in
      ap (retrieve_all c) same ∙ ap some (retrieve_all_from-Holds c more _ all)

  -- PersistSnapshot writes the events of a snapshot so that they are read back.
  pub write_snapshot-Holds :
      (z : Bool) (es : List DomainEvent)
      → AllWritable c z es
      → (bs : List ℕ) × (write_snapshot c z es ≡ (none, bs)) × Holds c bs (map recalled_event es)
  unfolding write_snapshot
  write_snapshot-Holds z [] ws = ([], refl, Holds-nothing c)
  write_snapshot-Holds z (e ∷ es) ((r, w), ws) =
      let (more, same, held) = write_snapshot-Holds z es ws in
      (
        write_struct c z r ++ more,
        ap
              (λ (o : Option (List ℕ)). elim o as (λ _. Option StoreError × List ℕ) [
                | none ↦ (some unhandled_event_type, [])
                | some bs ↦ ((write_snapshot c z es).0, bs ++ (write_snapshot c z es).1)
              ])
              (write_event-writes z e r w)
            ∙ ap (λ (x : Option StoreError × List ℕ). (x.0, write_struct c z r ++ x.1)) same,
        Holds-append c (write_struct c z r) more (recalled_event e ∷ []) (map recalled_event es)
            (write_struct-Holds z e r w) held,
      )
