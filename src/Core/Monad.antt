-- ===== src/Core/Monad.antt =====
-- Results of the code in core/: a value, an error value, or a panic. An error keeps the state that
-- the code has reached, since what it wrote before the error stays written.
use gomud.Base.{Bool, true, false, Option, none, some}

-- The errors, one for each message of the source that the zone produces.
pub data Error : Type 0 where
  unknown_starting_location duplicate_actor unknown_from_location unknown_to_location : Error
  no_exit_to_destination unknown_actor actor_not_in_zone unresolved_actor_move : Error
  unresolved_relocate no_default_location cannot_find_actor : Error
  duplicate_location unknown_location location_not_empty : Error
  duplicate_exit unknown_source_location direction_taken unknown_destination : Error
  exit_already_present unknown_exit nil_destination : Error
  no_destination_before two_destinations_before zone_ref_missing_before : Error
  location_ref_missing_before : Error
  duplicate_object no_container unknown_object same_container not_in_from_container : Error
  different_locations would_overflow unknown_from_container unknown_to_container : Error
  not_to_or_from_actor stealing_not_allowed object_in_other_zone : Error
  object_already_present no_subcontainers : Error
  unknown_subcontainer subcontainer_full item_too_large not_in_source_subcontainer : Error
  object_does_not_fit no_room_for_item : Error
  not_same_location unknown_damage_type unrecognized_command persist_failed : Error

-- What a function returns that changes no state.
pub data Result (A : Type 0) : Type 0 where
  ok : A → Result A
  err : Error → Result A

pub data Outcome (S A : Type 0) : Type 0 where
  returns : A → S → Outcome S A
  fails : Error → S → Outcome S A
  panics : Outcome S A

abbrev pub M : Type 0 → Type 0 → Type 0
M S A = S → Outcome S A

abbrev pub and_then : {S A B : Type 0} → Outcome S A → (A → M S B) → Outcome S B
and_then (returns a s) f = f a s
and_then (fails e s) f = fails e s
and_then panics f = panics

infixl 5 ◌>>=◌ ◌>>◌
abbrev pub ◌>>=◌ : {S A B : Type 0} → M S A → (A → M S B) → M S B
◌>>=◌ m f s = and_then (m s) f

abbrev pub ◌>>◌ : {S B : Type 0} → M S (Unit {0}) → M S B → M S B
◌>>◌ m k s = and_then (m s) (λ _. k)

abbrev pub pure : {S A : Type 0} → A → M S A
pure a s = returns a s

abbrev pub get : {S : Type 0} → M S S
get s = returns s s

abbrev pub modify : {S : Type 0} → (S → S) → M S (Unit {0})
modify f s = returns tt (f s)

abbrev pub fail : {S A : Type 0} → Error → M S A
fail e s = fails e s

-- `if !test { return err }`
abbrev pub guard : {S : Type 0} → Bool → Error → M S (Unit {0})
guard true e s = returns tt s
guard false e s = fails e s

-- `if p == nil { return err }`
abbrev pub some_or : {S A : Type 0} → Option A → Error → M S A
some_or none e s = fails e s
some_or (some a) e s = returns a s

-- A use of a pointer: nil panics.
abbrev pub deref : {S A : Type 0} → Option A → M S A
deref none s = panics
deref (some a) s = returns a s

abbrev pub lift : {S A : Type 0} → Result A → M S A
lift (ok a) s = returns a s
lift (err e) s = fails e s
