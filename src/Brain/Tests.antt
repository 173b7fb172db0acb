-- ===== src/Brain/Tests.antt =====
-- A search on a small graph, with a sorted list for a heap.
use gomud.Base.{
  ℕ, ◌+◌, true, false, ◌==◌, ltb, Option, none, some, List, [], ◌∷◌, if◌then◌else◌, pos, All, ◌≡◌,
  refl, subst, arith,
}
use gomud.Brain.Pathfind.{
  Cost, Neighbor, Heap, Search, dijkstra_find_path, dijkstra_loop, expand, relax, relax_all,
  start_search, turn,
}
use gomud.Brain.Pathfind.Reached.{IsHeap, Found, dijkstra_find_path-Found}

abbrev plain_costs : Cost ℕ
plain_costs = record { zero_cost = 0; plus = λ a b. a + b; less = ltb }

abbrev insert_sorted : Neighbor ℕ → List (Neighbor ℕ) → List (Neighbor ℕ)
insert_sorted x [] = x ∷ []
insert_sorted x (y ∷ ys) =
    let rest = insert_sorted x ys in if ltb x.cost y.cost then x ∷ y ∷ ys else y ∷ rest

abbrev take_first : List (Neighbor ℕ) → Option (Neighbor ℕ × List (Neighbor ℕ))
take_first [] = none
take_first (x ∷ xs) = some (x, xs)

abbrev sorted_list : Heap ℕ (List (Neighbor ℕ))
sorted_list = record { empty = []; push = insert_sorted; pop = take_first }

insert_sorted-All :
    (P : Neighbor ℕ → Type 0) (x : Neighbor ℕ) (q : List (Neighbor ℕ))
    → P x
    → All P q
    → All P (insert_sorted x q)
insert_sorted-All P x [] p a = (p, tt)
insert_sorted-All P x (y ∷ ys) p a =
    elim (ltb x.cost y.cost) as (λ b. All P (if b then x ∷ y ∷ ys else y ∷ insert_sorted x ys)) [
      | true ↦ (p, a)
      | false ↦ (a.0, insert_sorted-All P x ys p a.1)
    ]

taken :
    {x y : Neighbor ℕ} {xs ys : List (Neighbor ℕ)}
    → ◌≡◌ {A = Option (Neighbor ℕ × List (Neighbor ℕ))} (some (x, xs)) (some (y, ys))
    → (x ≡ y) × (xs ≡ ys)
taken q = (cc, cc)

take_first-All :
    (P : Neighbor ℕ → Type 0) (q : List (Neighbor ℕ)) {x : Neighbor ℕ} {r : List (Neighbor ℕ)}
    → take_first q ≡ some (x, r)
    → All P q
    → P x × All P r
take_first-All P [] h a = cc
take_first-All P (y ∷ ys) h a = let (e, f) = taken h in (subst P e a.0, subst (All P) f a.1)

sorted_list-IsHeap : IsHeap sorted_list
sorted_list-IsHeap = record {
  items = λ q. q;
  empty_items = refl;
  pushed = insert_sorted-All;
  popped = take_first-All;
}

-- From 1 to 2 and 3, and on from each to 4.
abbrev diamond : ℕ → List ℕ
diamond n = if n == 1 then 2 ∷ 3 ∷ [] else if n == 2 then 4 ∷ [] else if n == 3 then 4 ∷ [] else []

abbrev weight : ℕ → ℕ → ℕ
weight a b = if a == 2 then 5 else 1

abbrev final_of : Option (Search ℕ (List (Neighbor ℕ))) → Option ℕ
final_of none = none
final_of (some t) = t.final

abbrev link_of : ℕ → Option (Search ℕ (List (Neighbor ℕ))) → Option (Option ℕ)
link_of n none = none
link_of n (some t) = t.came_from n

abbrev searched : Option (Search ℕ (List (Neighbor ℕ)))
searched = dijkstra_find_path plain_costs sorted_list weight (λ n. n == 4) diamond 9 (pos 8) 1

reaches_goal : final_of searched ≡ some 4
unfolding dijkstra_find_path dijkstra_loop turn start_search expand relax_all relax
reaches_goal = refl

cheaper_way : link_of 4 searched ≡ some (some 3)
unfolding dijkstra_find_path dijkstra_loop turn start_search expand relax_all relax
cheaper_way = refl

dijkstra_find_path-Found_example :
    (t : Search ℕ (List (Neighbor ℕ))) × (dijkstra_find_path plain_costs sorted_list weight
        (λ n. n == 4)
        diamond
        9
        (pos 8)
        1
      ≡ some t)
    × Found plain_costs sorted_list sorted_list-IsHeap (λ n. n == 4) diamond 1 t
dijkstra_find_path-Found_example =
    dijkstra_find_path-Found plain_costs sorted_list sorted_list-IsHeap (λ n. n == 4) diamond 1
      weight 9 8 (omega arith)
