-- ===== src/Brain/Pathfind/Reached.antt =====
-- What the searches of brain/internal/inner/pathfind reach.
use gomud.Base.{
  ℕ, zero, suc, ◌<◌, Bool, true, false, ◌==◌, ==_iff, Option, none, some, List, [], ◌∷◌, ◌++◌,
  if◌then◌else◌, put, pos, All, ◌≡◌, refl, ap, sym, ◌∙◌, subst, arith,
}
use gomud.Brain.Pathfind.{
  Cost, Neighbor, Heap, Search, is_better, cost_or_zero, start_search, relax, relax_all, Turn, stop,
  continue, expand, turn_with, turn, dijkstra_loop, dijkstra_find_path,
}
use mathlib.Core.List.{append_assoc}

-- A node that the generator gives for another.
abbrev pub IsNeighbor : (ℕ → List ℕ) → ℕ → ℕ → Type 0
IsNeighbor n_gen p n = (before : List ℕ) × (after : List ℕ) × (n_gen p ≡ before ++ n ∷ after)

-- A node to which generated edges lead from the start.
pub data Reachable (n_gen : ℕ → List ℕ) (start : ℕ) : ℕ → Type 0 where
  origin : Reachable n_gen start start
  edge : {p n : ℕ} → Reachable n_gen start p → IsNeighbor n_gen p n → Reachable n_gen start n

-- What container/heap says of Push and Pop: they put in the given element, and take out one that the
-- queue has.
pub record IsHeap {C Q : Type 0} (heap : Heap C Q) : Type 1 where
  pub items : Q → List (Neighbor C)
  pub empty_items : items heap.empty ≡ []
  pub pushed :
      (P : Neighbor C → Type 0) (x : Neighbor C) (q : Q)
      → P x
      → All P (items q)
      → All P (items (heap.push x q))
  pub popped :
      (P : Neighbor C → Type 0) (q : Q) {x : Neighbor C} {r : Q}
      → heap.pop q ≡ some (x, r)
      → All P (items q)
      → P x × All P (items r)

same_link : {a b : ℕ} → some (some a) ≡ some (some b) → a ≡ b
same_link q = cc

same_final : {a b : ℕ} → some a ≡ some b → a ≡ b
same_final q = cc

module _ {C Q : Type 0} (costs : Cost C) (heap : Heap C Q) (law : IsHeap heap) (is_goal : ℕ → Bool)
    (n_gen : ℕ → List ℕ) (start : ℕ) where
  -- The nodes in the queue can be reached; each link in `came_from` is an edge from a node that can be
  -- reached; and the final node is a goal that can be reached.
  pub record Found (s : Search C Q) : Type 0 where
    pub queued : All (λ x. Reachable n_gen start x.value) (law.items s.frontier)
    pub linked :
        (n p : ℕ) → s.came_from n ≡ some (some p) → Reachable n_gen start p × IsNeighbor n_gen p n
    pub final_found : (f : ℕ) → s.final ≡ some f → Reachable n_gen start f × (is_goal f ≡ true)

  start-Found : Found (start_search costs heap start)
  unfolding start_search
  start-Found = record {
    queued =
        law.pushed (λ x. Reachable n_gen start x.value) _ _ origin
          (subst (All _) (sym law.empty_items) tt);
    linked = λ n p q. not_a_link n p (n == start) q;
    final_found = λ f q. cc;
  }
    where
      not_a_link :
          (n p : ℕ) (b : Bool)
          → (if b then some none else none) ≡ some (some p)
          → Reachable n_gen start p × IsNeighbor n_gen p n
      not_a_link n p true q = cc
      not_a_link n p false q = cc

  module _ (coster : ℕ → ℕ → C) (priority : ℕ → C → C) where
    replaced_link :
        (s : Search C Q) (current node : ℕ)
        → Found s
        → Reachable n_gen start current
        → IsNeighbor n_gen current node
        → (n p : ℕ) (b : Bool) → (node == n) ≡ b
        → (if b then some (some current) else s.came_from n) ≡ some (some p)
        → Reachable n_gen start p × IsNeighbor n_gen p n
    replaced_link s current node f r e n p true k q =
        let from = same_link q in
        (
          subst (Reachable n_gen start) from r,
          subst (λ m. IsNeighbor n_gen p m) ((==_iff node n).0 k)
              (subst (λ m. IsNeighbor n_gen m node) from e),
        )
    replaced_link s current node f r e n p false k q = f.linked n p q

    relax-Found :
        (current node : ℕ) (s : Search C Q)
        → Reachable n_gen start current
        → IsNeighbor n_gen current node
        → Found s
        → Found (relax costs heap coster priority is_goal n_gen current node s)
    unfolding relax
    relax-Found current node s r e f =
        let new_cost =
          costs.plus (cost_or_zero costs heap (s.cost_so_far current)) (coster current node) in
        elim (is_better costs heap new_cost (s.cost_so_far node))
          as (λ b. Found (
            if b
            then record s {
              cost_so_far = put s.cost_so_far node (some new_cost);
              frontier =
                  heap.push (record { value = node; cost = priority node new_cost }) s.frontier;
              came_from = put s.came_from node (some (some current));
            }
            else s)) [
              | true ↦ record {
                queued = law.pushed (λ x. Reachable n_gen start x.value) _ _ (edge r e) f.queued;
                linked = λ n p q. replaced_link s current node f r e n p (node == n) refl q;
                final_found = f.final_found;
              }
              | false ↦ f
            ]

    relax_all-Found :
        (current : ℕ) (before ns : List ℕ) (s : Search C Q)
        → Reachable n_gen start current
        → n_gen current ≡ before ++ ns
        → Found s
        → Found (relax_all costs heap coster priority is_goal n_gen current ns s)
    unfolding relax_all
    relax_all-Found current before [] s r q f = f
    relax_all-Found current before (n ∷ ns) s r q f =
        relax_all-Found current (before ++ n ∷ []) ns _ r
          (q ∙ sym (append_assoc before (n ∷ []) ns)) (relax-Found current n s r (before, ns, q) f)

    -- What a turn gives.
    abbrev TurnFound : Turn C Q → Type 0
    TurnFound (stop t) = Found t
    TurnFound (continue t) = Found t

    expand-Found :
        (current : ℕ) (s : Search C Q)
        → Reachable n_gen start current
        → Found s
        → TurnFound (expand costs heap coster priority is_goal n_gen current s)
    unfolding expand
    expand-Found current s r f = goal_or_not (is_goal current) refl
      where
        goal_or_not :
            (b : Bool)
            → is_goal current ≡ b
            → TurnFound (
                if b
                then stop (record s { final = some current })
                else continue
                    (relax_all costs heap coster priority is_goal n_gen current (n_gen current) s))
        goal_or_not true g = record {
          queued = f.queued;
          linked = f.linked;
          final_found = λ x q.
              (subst (Reachable n_gen start) (same_final q) r, ap is_goal (sym (same_final q)) ∙ g);
        }
        goal_or_not false g = relax_all-Found current [] (n_gen current) s r refl f

    turn-Found :
        (s : Search C Q) → Found s → TurnFound (turn costs heap coster priority is_goal n_gen s)
    unfolding turn
    turn-Found s f = popped_or_not (heap.pop s.frontier) refl
      where
        popped_or_not :
            (o : Option (Neighbor C × Q))
            → heap.pop s.frontier ≡ o
            → TurnFound (turn_with costs heap coster priority is_goal n_gen s o)
        popped_or_not none q = f
        popped_or_not (some (x, rest)) q =
            let (r, queued) =
              law.popped (λ y. Reachable n_gen start y.value) s.frontier q f.queued in
            expand-Found x.value (record s { frontier = rest }) r
              (record { queued = queued; linked = f.linked; final_found = f.final_found })

    after_turn :
        (n left : ℕ)
        → ((t : Search C Q)
            → Found t
            → (u : Search C Q) × (dijkstra_loop costs heap coster priority is_goal n_gen n
                  (some left)
                  t
                ≡ some u)
              × Found u)
        → (r : Turn C Q) → TurnFound r
        → (u : Search C Q) × (elim r as (λ _. Option (Search C Q)) [
          | stop t ↦ some t
          | continue t ↦ dijkstra_loop costs heap coster priority is_goal n_gen n (some left) t
        ]
            ≡ some u)
          × Found u
    after_turn n left go (stop t) f = (t, refl, f)
    after_turn n left go (continue t) f = go t f

    -- With a bound on the expansions, that many turns and one are enough.
    dijkstra_loop-Found :
        (fuel left : ℕ) (s : Search C Q)
        → left < fuel
        → Found s
        → (t : Search C Q) × (dijkstra_loop costs heap coster priority is_goal n_gen fuel
              (some left)
              s
            ≡ some t)
          × Found t
    unfolding dijkstra_loop
    dijkstra_loop-Found zero left s h f = ground arith
    dijkstra_loop-Found (suc n) zero s h f = (s, refl, f)
    dijkstra_loop-Found (suc n) (suc left) s h f =
        after_turn n left (λ t. dijkstra_loop-Found n left t (omega arith))
          (turn costs heap coster priority is_goal n_gen s) (turn-Found s f)

  -- DijkstraFindPath with a bound of `m` expansions always returns, within `m` + 1 turns; and then
  -- each link of `cameFrom` is a generated edge from a node to which edges lead from the start, and
  -- the final node, if there is one, is a goal to which edges lead from the start.
  pub dijkstra_find_path-Found :
      (coster : ℕ → ℕ → C) (fuel m : ℕ)
      → m < fuel
      → (t : Search C Q) × (dijkstra_find_path costs heap coster is_goal n_gen fuel (pos m) start
          ≡ some t)
        × Found t
  unfolding dijkstra_find_path
  dijkstra_find_path-Found coster fuel m h =
      dijkstra_loop-Found coster (λ _ c. c) fuel m (start_search costs heap start) h start-Found
