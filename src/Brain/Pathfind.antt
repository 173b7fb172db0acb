-- ===== src/Brain/Pathfind.antt =====
-- brain/internal/inner/pathfind: DijkstraFindPath and AStarFindPath.
pub mod Reached
use gomud.Base.{
  ℕ, zero, suc, ◌-◌, Bool, true, false, not, ◌&&◌, ◌||◌, ◌==◌, leb, Option, none, some, List, [],
  ◌∷◌, if◌then◌else◌, put, ℤ, pos, negsuc,
}

-- Costs are float64 values; of these the searches use 0, the sum and `<`. The priority queue is
-- container/heap over NeighborQueue: Push, and Pop, which gives nothing for an empty queue.
pub record Cost (C : Type 0) : Type 0 where
  pub zero_cost : C
  pub plus : C → C → C
  pub less : C → C → Bool

-- A Neighbor; a node is the number of a comparable value.
pub record Neighbor (C : Type 0) : Type 0 where
  pub value : ℕ
  pub cost : C

pub record Heap (C Q : Type 0) : Type 0 where
  pub empty : Q
  pub push : Neighbor C → Q → Q
  pub pop : Q → Option (Neighbor C × Q)

-- `frontier`, `cameFrom`, `costSoFar` and `final`. An entry of `cameFrom` may be nil.
pub record Search (C Q : Type 0) : Type 0 where
  pub frontier : Q
  pub came_from : ℕ → Option (Option ℕ)
  pub cost_so_far : ℕ → Option C
  pub final : Option ℕ

-- A negative maxExpansions is no bound.
abbrev pub bound_of : ℤ → Option ℕ
bound_of (pos m) = some m
bound_of (negsuc m) = none

-- What one turn of the outer loop does with the node that it has popped.
pub data Turn (C Q : Type 0) : Type 0 where
  stop : Search C Q → Turn C Q
  continue : Search C Q → Turn C Q

module _ {C Q : Type 0} (costs : Cost C) (heap : Heap C Q) where
  -- `costSoFar[n]`, which is 0 for a missing key
  abbrev pub cost_or_zero : Option C → C
  cost_or_zero none = costs.zero_cost
  cost_or_zero (some c) = c

  -- `!found || newCost < existingNeighborCost`
  abbrev pub is_better : C → Option C → Bool
  is_better new none = true
  is_better new (some old) = costs.less new old

  unfoldable pub start_search : ℕ → Search C Q
  start_search start = record {
    frontier = heap.push (record { value = start; cost = costs.zero_cost }) heap.empty;
    came_from = λ n. if n == start then some none else none;
    cost_so_far = λ n. if n == start then some costs.zero_cost else none;
    final = none;
  }

  module _ (coster : ℕ → ℕ → C) (priority : ℕ → C → C) (is_goal : ℕ → Bool)
      (n_gen : ℕ → List ℕ) where
    -- The body of the loop over the neighbors. Dijkstra's priority is the cost, that of A* is the
    -- cost and the estimate.
    unfoldable pub relax : ℕ → ℕ → Search C Q → Search C Q
    relax current node s =
        let new_cost = costs.plus (cost_or_zero (s.cost_so_far current)) (coster current node) in
        if is_better new_cost (s.cost_so_far node)
        then record s {
          cost_so_far = put s.cost_so_far node (some new_cost);
          frontier = heap.push (record { value = node; cost = priority node new_cost }) s.frontier;
          came_from = put s.came_from node (some (some current));
        }
        else s

    unfoldable pub relax_all : ℕ → List ℕ → Search C Q → Search C Q
    relax_all current [] s = s
    relax_all current (n ∷ ns) s = relax_all current ns (relax current n s)

    unfoldable pub expand : ℕ → Search C Q → Turn C Q
    expand current s =
        if is_goal current
        then stop (record s { final = some current })
        else continue (relax_all current (n_gen current) s)

    abbrev pub turn_with : Search C Q → Option (Neighbor C × Q) → Turn C Q
    turn_with s none = stop s
    turn_with s (some x) = expand x.0.value (record s { frontier = x.1 })

    unfoldable pub turn : Search C Q → Turn C Q
    turn s = turn_with s (heap.pop s.frontier)

    -- The outer loop of AStarFindPath, with fuel; none if it has run out.
    unfoldable pub a_star_loop : ℕ → Search C Q → Option (Search C Q)
    a_star_loop zero s = none
    a_star_loop (suc n) s = elim (turn s) [ stop t ↦ some t | continue t ↦ a_star_loop n t ]

    -- The outer loop of DijkstraFindPath, with fuel and with the expansions that are left.
    unfoldable pub dijkstra_loop : ℕ → Option ℕ → Search C Q → Option (Search C Q)
    dijkstra_loop zero left s = none
    dijkstra_loop (suc n) none s = elim (turn s) [
      | stop t ↦ some t
      | continue t ↦ dijkstra_loop n none t
    ]
    dijkstra_loop (suc n) (some zero) s = some s
    dijkstra_loop (suc n) (some (suc left)) s = elim (turn s) [
      | stop t ↦ some t
      | continue t ↦ dijkstra_loop n (some left) t
    ]

  module _ (coster : ℕ → ℕ → C) (is_goal : ℕ → Bool) (n_gen : ℕ → List ℕ) where
    -- DijkstraFindPath: the priority of a node is its cost.
    unfoldable pub dijkstra_find_path : ℕ → ℤ → ℕ → Option (Search C Q)
    dijkstra_find_path fuel max_expansions start =
        dijkstra_loop coster (λ _ c. c) is_goal n_gen fuel (bound_of max_expansions)
          (start_search start)

    -- AStarFindPath: it is the cost and the estimate.
    unfoldable pub a_star_find_path : (ℕ → C) → ℕ → ℕ → Option (Search C Q)
    a_star_find_path estimator fuel start =
        a_star_loop coster (λ n c. costs.plus c (estimator n)) is_goal n_gen fuel
          (start_search start)
