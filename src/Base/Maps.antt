-- ===== src/Base/Maps.antt =====
-- Dictionaries keyed by numbers: finite maps as association lists, and total maps as functions.
use Prim.Native.Nat.{ℕ}
use mathlib.Core.Path.{◌≡◌}
use mathlib.Core.Option.{Option, none, some}
use mathlib.Core.List.{List, [], ◌∷◌}
use native.Mathlib.Omega.{arith}
use gomud.Base.Tests.{◌==◌, if◌then◌else◌}

abbrev pub Map : Type 0
Map = List (ℕ × ℕ)

unfoldable pub lookup : ℕ → Map → Option ℕ
lookup k [] = none
lookup k ((j, v) ∷ m) = if j == k then some v else lookup k m

-- A new key goes to the end, an old one keeps its place.
unfoldable pub insert : ℕ → ℕ → Map → Map
insert k v [] = (k, v) ∷ []
insert k v ((j, w) ∷ m) = if j == k then (k, v) ∷ m else (j, w) ∷ insert k v m

unfoldable pub delete : ℕ → Map → Map
delete k [] = []
delete k ((j, w) ∷ m) = if j == k then delete k m else (j, w) ∷ delete k m

pub lookup-insert :
    (k j v : ℕ) (m : Map) → lookup j (insert k v m) ≡ (if k == j then some v else lookup j m)
unfolding lookup insert
lookup-insert k j v [] = ground arith
lookup-insert k j v ((i, w) ∷ m) = ground (arith, lookup-insert k j v m)

pub lookup-delete :
    (k j : ℕ) (m : Map) → lookup j (delete k m) ≡ (if k == j then none else lookup j m)
unfolding lookup delete
lookup-delete k j [] = ground arith
lookup-delete k j ((i, w) ∷ m) = ground (arith, lookup-delete k j m)

-- The memory at one address replaced.
abbrev pub put {ℓ} : {V : Type ℓ} → (ℕ → V) → ℕ → V → ℕ → V
put f r v s = if r == s then v else f s
