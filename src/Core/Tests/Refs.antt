-- ===== src/Core/Tests/Refs.antt =====
-- Tests of Remove and Dedupe.
use gomud.Base.{List, [], ◌∷◌, if◌then◌else◌, ◌≡◌, refl}
use gomud.Core.Data.{Ref}
use gomud.Core.Refs.{contains, remove, dedupe}
use gomud.Core.Refs.Laws.{count, count-remove, count-dedupe}

remove_first : remove (3 ∷ 5 ∷ 3 ∷ []) 3 ≡ 5 ∷ 3 ∷ []
unfolding remove
remove_first = refl

dedupe_order : dedupe (3 ∷ 5 ∷ 3 ∷ []) ≡ 3 ∷ 5 ∷ []
unfolding dedupe
dedupe_order = refl

abbrev crowd : List Ref
crowd = 3 ∷ 5 ∷ 3 ∷ []

count-remove_example : count 3 (remove crowd 3) ≡ 1
count-remove_example = count-remove crowd 3 3

count-dedupe_example : count 3 (dedupe crowd) ≡ (if contains crowd 3 then 1 else 0)
count-dedupe_example = count-dedupe crowd 3
