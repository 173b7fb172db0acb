-- ===== src/Core/Snapshot/Order.antt =====
-- dfsSnapshottableDepsOmittingVisited of core/zone.go.
use mathlib.Core.List.{append_assoc, append-nil}
use gomud.Base.{
  ℕ, zero, suc, Bool, true, false, ◌||◌, some, List, [], ◌∷◌, ◌++◌, if◌then◌else◌, All, All-append,
  ◌<◌, ◌≤◌, ◌≡◌, refl, ap, sym, ◌∙◌, subst, arith,
}
use gomud.Core.Body.{Body}
use gomud.Core.Snapshot.{
  Node, actor_node, location_node, exit_node, object_node, is_same, is_visited,
  snapshot_dependencies, Visit, and_visit, visit_all, visit_dependencies, dfs, ordered_objs,
}

-- Each node comes after all of its dependencies, and after no copy of itself; `seen` comes before.
pub data Ordered (b : Body) : List Node → List Node → Type 0 where
  nothing : {seen : List Node} → Ordered b seen []
  node :
      {seen : List Node} {n : Node} {deps ns : List Node}
      → snapshot_dependencies b n ≡ some deps
      → All (λ d. is_visited seen d ≡ true) deps
      → is_visited seen n ≡ false
      → Ordered b (seen ++ n ∷ []) ns
      → Ordered b seen (n ∷ ns)

-- What a visit has added to the visited nodes.
pub record Visited (b : Body) (seen : List Node) (wanted : List Node) (r : List Node × List Node)
    : Type 0 where
  pub grown : r.1 ≡ seen ++ r.0
  pub ordered : Ordered b seen r.0
  pub reached : All (λ n. is_visited r.1 n ≡ true) wanted

is_visited-append :
    (xs ys : List Node) (n : Node) → is_visited (xs ++ ys) n ≡ (is_visited xs n || is_visited ys n)
is_visited-append [] ys n = refl
is_visited-append (x ∷ xs) ys n = ground (arith, is_visited-append xs ys n)

is_same_refl : (n : Node) → is_same n n ≡ true
is_same_refl (actor_node r) = ground arith
is_same_refl (location_node r) = ground arith
is_same_refl (exit_node r) = ground arith
is_same_refl (object_node r) = ground arith

Ordered-append :
    (b : Body) (seen xs ys : List Node)
    → Ordered b seen xs
    → Ordered b (seen ++ xs) ys
    → Ordered b seen (xs ++ ys)
Ordered-append b seen _ ys nothing q = subst (λ l. Ordered b l ys) (append-nil seen) q
Ordered-append b seen _ ys (node {n = n} {ns = ns} d a f o) q = node d a f (
    Ordered-append b (seen ++ n ∷ []) ns ys o
      (subst (λ l. Ordered b l ys) (sym (append_assoc seen (n ∷ []) ns)) q))

still_visited :
    (xs ys ns : List Node)
    → All (λ n. is_visited xs n ≡ true) ns
    → All (λ n. is_visited (xs ++ ys) n ≡ true) ns
still_visited xs ys [] a = tt
still_visited xs ys (n ∷ ns) a =
    (ground (arith, is_visited-append xs ys n, a.0), still_visited xs ys ns a.1)

is_same_sound : (m n : Node) → is_same m n ≡ true → m ≡ n
is_same_sound (actor_node a) (actor_node b) q = ap actor_node (ground (arith, q))
is_same_sound (location_node a) (location_node b) q = ap location_node (ground (arith, q))
is_same_sound (exit_node a) (exit_node b) q = ap exit_node (ground (arith, q))
is_same_sound (object_node a) (object_node b) q = ap object_node (ground (arith, q))
is_same_sound (actor_node a) (location_node b) q = cc
is_same_sound (actor_node a) (exit_node b) q = cc
is_same_sound (actor_node a) (object_node b) q = cc
is_same_sound (location_node a) (actor_node b) q = cc
is_same_sound (location_node a) (exit_node b) q = cc
is_same_sound (location_node a) (object_node b) q = cc
is_same_sound (exit_node a) (actor_node b) q = cc
is_same_sound (exit_node a) (location_node b) q = cc
is_same_sound (exit_node a) (object_node b) q = cc
is_same_sound (object_node a) (actor_node b) q = cc
is_same_sound (object_node a) (location_node b) q = cc
is_same_sound (object_node a) (exit_node b) q = cc

-- The network is acyclic: on a set of nodes no dependency is nil, each is in the set again, and has a
-- lower rank than its dependent.
pub record IsDag (b : Body) (D : Node → Type 0) (rank : Node → ℕ) : Type 0 where
  pub below :
      (n : Node)
      → D n
      → (deps : List Node) × (snapshot_dependencies b n ≡ some deps)
        × All (λ d. D d × (rank d < rank n)) deps

module _ (b : Body) (D : Node → Type 0) (rank : Node → ℕ) (dag : IsDag b D rank) where
  abbrev Below : ℕ → List Node → Type 0
  Below k = All (λ n. rank n < k)

  Below-≤ : (j k : ℕ) (ns : List Node) → j ≤ k → Below j ns → Below k ns
  Below-≤ j k [] h a = tt
  Below-≤ j k (n ∷ ns) h a = (omega (arith, h, a.0), Below-≤ j k ns h a.1)

  not_same : (m n : Node) (v : Bool) → is_same m n ≡ v → rank m < rank n → v ≡ false
  not_same m n false q h = refl
  not_same m n true q h =
      subst (λ x. rank m < rank x → true ≡ false) (is_same_sound m n q) (λ l. ground (arith, l)) h

  Below-unvisited : (n : Node) (ns : List Node) → Below (rank n) ns → is_visited ns n ≡ false
  Below-unvisited n [] a = refl
  Below-unvisited n (m ∷ ns) a =
      ground (arith, not_same m n (is_same m n) refl a.0, Below-unvisited n ns a.1)

  -- What a visit gives, in a set of nodes below a rank.
  record Result (seen wanted : List Node) (k : ℕ) (o : Visit) : Type 0 where
    result : List Node × List Node
    returned : o ≡ some result
    visited : Visited b seen wanted result
    low : Below k result.0

  abbrev Total : ℕ → (Node → List Node → Visit) → Type 0
  Total k f =
      (n : Node) (seen : List Node)
      → D n
      → rank n < k
      → Result seen (n ∷ []) (suc (rank n)) (f n seen)

  visit_all-Result :
      (k m : ℕ) (f : Node → List Node → Visit)
      → Total k f
      → m ≤ k
      → (ns seen : List Node) → All (λ d. D d × (rank d < m)) ns
      → Result seen ns m (visit_all f ns seen)
  unfolding visit_all
  visit_all-Result k m f total h [] seen a = record {
    result = ([], seen);
    returned = refl;
    visited = record { grown = sym (append-nil seen); ordered = nothing; reached = tt };
    low = tt;
  }
  visit_all-Result k m f total h (n ∷ ns) seen ((d, l), a) =
      let first = total n seen d (omega (arith, l, h)) in
      let x = first.result in
      let rest = visit_all-Result k m f total h ns x.1 a in
      let y = rest.result in
      record {
        result = (x.0 ++ y.0, y.1);
        returned = rw (first.returned, rest.returned);
        visited = record {
          grown =
              rest.visited.grown
              ∙ ap (λ s. s ++ y.0) first.visited.grown
              ∙ append_assoc seen x.0 y.0;
          ordered =
              Ordered-append b seen x.0 y.0 first.visited.ordered
                (subst (λ s. Ordered b s y.0) first.visited.grown rest.visited.ordered);
          reached = (
            (subst (λ s. All (λ m. is_visited s m ≡ true) (n ∷ [])) (sym rest.visited.grown)
                (still_visited x.1 y.0 (n ∷ []) first.visited.reached)).0,
            rest.visited.reached,
          );
        };
        low =
            All-append (λ m. rank m < _) x.0 y.0
              (Below-≤ (suc (rank n)) m x.0 (omega (arith, l)) first.low) rest.low;
      }

  -- A node that is visited for the first time comes behind its dependencies.
  append_node :
      (n : Node) (seen deps : List Node) {o : Visit}
      → snapshot_dependencies b n ≡ some deps
      → is_visited seen n ≡ false
      → Result seen deps (rank n) o
      → Result seen
          (n ∷ [])
          (suc (rank n))
          (and_visit o λ ret last. some (ret ++ n ∷ [], last ++ n ∷ []))
  append_node n seen deps q new r =
      let x = r.result in
      let grown = r.visited.grown in
      record {
        result = (x.0 ++ n ∷ [], x.1 ++ n ∷ []);
        returned =
            ap (λ o. and_visit o λ ret last. some (ret ++ n ∷ [], last ++ n ∷ [])) r.returned;
        visited = record {
          grown = ap (λ s. s ++ n ∷ []) grown ∙ append_assoc seen x.0 (n ∷ []);
          ordered = Ordered-append b seen x.0 (n ∷ []) r.visited.ordered (
              node q (subst (λ s. All (λ d. is_visited s d ≡ true) deps) grown r.visited.reached)
                (ground (arith, is_visited-append seen x.0 n, new, Below-unvisited n x.0 r.low))
                nothing);
          reached = (ground (arith, is_visited-append x.1 (n ∷ []) n, is_same_refl n), tt);
        };
        low =
            All-append (λ m. rank m < suc (rank n)) x.0 (n ∷ [])
              (Below-≤ (rank n) (suc (rank n)) x.0 (omega arith) r.low) (omega arith, tt);
      }

  first_or_again :
      (n : Node) (seen deps : List Node) {o : Visit}
      → snapshot_dependencies b n ≡ some deps
      → Result seen deps (rank n) o
      → (v : Bool) → is_visited seen n ≡ v
      → Result seen (n ∷ []) (suc (rank n)) (
          if v
          then some ([], seen)
          else and_visit o λ ret last. some (ret ++ n ∷ [], last ++ n ∷ []))
  first_or_again n seen deps q r true v = record {
    result = ([], seen);
    returned = refl;
    visited = record { grown = sym (append-nil seen); ordered = nothing; reached = (v, tt) };
    low = tt;
  }
  first_or_again n seen deps q r false v = append_node n seen deps q v r

  dfs-Result : (k : ℕ) → Total k (dfs k b)
  unfolding dfs
  dfs-Result zero n seen d l = ground arith
  dfs-Result (suc k) n seen d l =
      let (deps, q, below) = dag.below n d in
      let all =
        visit_all-Result k (rank n) (dfs k b) (dfs-Result k) (omega (arith, l)) deps seen below in
      let dependencies_first =
        subst (λ o. Result seen deps (rank n) (visit_dependencies (visit_all (dfs k b)) o seen))
          (sym q) all in
      first_or_again n seen deps q dependencies_first (is_visited seen n) refl

  -- On an acyclic network without nil pointers, whose ranks are below the depth of the stack, the
  -- loop of `snapshot` returns, for keys in any order, an order that has every key and in which each
  -- node comes once, after all of its dependencies.
  pub ordered_objs-Ordered :
      (keys : List Node)
      → All (λ n. D n × (rank n < b.stack)) keys
      → (order : List Node) × (ordered_objs b keys ≡ some (order, order))
        × Ordered b [] order
        × All (λ n. is_visited order n ≡ true) keys
  unfolding ordered_objs
  ordered_objs-Ordered keys a =
      let r =
        visit_all-Result b.stack b.stack (dfs b.stack b) (dfs-Result b.stack) (omega arith) keys []
          a in
      (
        r.result.0,
        r.returned ∙ ap (λ s. some (r.result.0, s)) r.visited.grown,
        r.visited.ordered,
        subst (λ s. All (λ n. is_visited s n ≡ true) keys) r.visited.grown r.visited.reached,
      )
