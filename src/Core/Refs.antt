-- ===== src/Core/Refs.antt =====
-- The pointer lists ActorList, ObjectList, ExitList and ObserverList, which share their code, and
-- `Dedupe` of core/observer.go. Callers hold copies, so a slice is a value here.
pub mod Laws
use gomud.Base.{
  ℕ, zero, suc, ◌+◌, Bool, true, false, Option, none, some, List, [], ◌∷◌, ◌++◌, ◌==◌, ◌||◌,
  if◌then◌else◌, take, drop, ◌≡◌, refl,
}
use gomud.Core.Data.{Ref}

-- The loop of IndexOf, from position `i`; `none` is its error.
index_from : List Ref → Ref → ℕ → Option ℕ
index_from [] r i = none
index_from (x ∷ xs) r i = if x == r then some i else index_from xs r (suc i)

unfoldable pub index_of : List Ref → Ref → Option ℕ
unfolding index_from
index_of xs r = index_from xs r 0

unfoldable pub contains : List Ref → Ref → Bool
unfolding index_of
contains xs r = elim (index_of xs r) [ none ↦ false | some i ↦ true ]

unfoldable pub remove : List Ref → Ref → List Ref
unfolding index_of
remove xs r = elim (index_of xs r) [ none ↦ xs | some i ↦ take i xs ++ drop (suc i) xs ]

-- `present[o]`, over the keys that the loop has put into the map.
unfoldable pub is_present : List Ref → Ref → Bool
is_present [] r = false
is_present (x ∷ xs) r = x == r || is_present xs r

dedupe_loop : List Ref → List Ref → List Ref → List Ref
dedupe_loop [] present out = out
dedupe_loop (o ∷ ol) present out =
    let seen = dedupe_loop ol present out in
    let fresh = dedupe_loop ol (o ∷ present) (out ++ o ∷ []) in
    if is_present present o then seen else fresh

unfoldable pub dedupe : List Ref → List Ref
unfolding dedupe_loop is_present
dedupe ol = dedupe_loop ol [] []

remove_second : remove (4 ∷ 7 ∷ 9 ∷ 7 ∷ []) 7 ≡ 4 ∷ 9 ∷ 7 ∷ []
unfolding remove
remove_second = refl

dedupe_keeps_first : dedupe (4 ∷ 7 ∷ 4 ∷ 9 ∷ 7 ∷ []) ≡ 4 ∷ 7 ∷ 9 ∷ []
unfolding dedupe
dedupe_keeps_first = refl
