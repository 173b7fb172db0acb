-- ===== src/Core/Process/Common.antt =====
-- What the handlers share: the numbered application of one event, tests on pointers, and
-- getObjectContainerTuplesRecursive of core/container.go.
use gomud.Base.{ℕ, zero, suc, Bool, true, false, Option, none, some, List, [], ◌∷◌, ◌++◌, ◌==◌}
use gomud.Core.Data.{
  Ref, Container, nil_container, location_container, actor_container, object_container,
}
use gomud.Core.Monad.{returns, M, and_then}
use gomud.Core.Body.{Body}
use gomud.Core.Container.{container_objects}
use gomud.Core.Event.{Event, Payload}
use gomud.Core.Apply.{Value}
use gomud.Core.Zone.{State, submit}

-- `SetSequenceNumber`, `nextSequenceId`, `applyEvent`, and `return out, []Event{e}, err`.
abbrev pub single : Payload → M State (Value × List Event)
single p s = and_then (submit p s) (λ r t. returns (r.0, r.1 ∷ []) t)

-- The zone's memory.
abbrev pub body : M State Body
body s = returns s.body s

abbrev pub is_some {ℓ} : {A : Type ℓ} → Option A → Bool
is_some none = false
is_some (some a) = true

-- `==` on pointers.
abbrev pub same : Option Ref → Option Ref → Bool
same none none = true
same none (some b) = false
same (some a) none = false
same (some a) (some b) = a == b

-- `==` on interface values.
abbrev pub same_container : Container → Container → Bool
same_container nil_container nil_container = true
same_container (location_container a) (location_container b) = same a b
same_container (actor_container a) (actor_container b) = same a b
same_container (object_container a) (object_container b) = same a b
same_container _ _ = false

gather :
    (Container → Option (List (Ref × Container)))
    → Container
    → List Ref
    → Option (List (Ref × Container))
gather below c [] = some []
gather below c (o ∷ os) = elim (below (object_container (some o))) [
  | none ↦ none
  | some inner ↦ elim (gather below c os) [
    | none ↦ none
    | some rest ↦ some ((o, c) ∷ inner ++ rest)
  ]
]

-- Every object in a container, at any depth, with the container that it is directly in; `none` is
-- a nil pointer or an overflow of the stack.
unfoldable pub object_container_tuples : ℕ → Body → Container → Option (List (Ref × Container))
unfolding gather
object_container_tuples zero b c = none
object_container_tuples (suc k) b c = elim (container_objects b c) [
  | none ↦ none
  | some os ↦ gather (object_container_tuples k b) c os
]
