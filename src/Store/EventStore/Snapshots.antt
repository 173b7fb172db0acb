-- ===== src/Store/EventStore/Snapshots.antt =====
-- findPreviousSnapshotForZone of store/store.go.
use gomud.Base.{
  ℕ, ◌≤◌, ◌<◌, Bool, true, false, ◌&&◌, ◌==◌, leb, Option, none, some, List, [], ◌∷◌, ◌++◌,
  if◌then◌else◌, ◌≡◌, refl, ap, arith, All,
}
use gomud.Core.Data.{Uuid}
use gomud.Store.EventStore.{EventStore, SnapshotFile, find_snapshot, find_previous_snapshot}

-- A snapshot of the zone that is not younger than `max`.
abbrev pub is_candidate : ℕ → Uuid → SnapshotFile → Bool
is_candidate max zone f = (f.zone_id == zone) && leb f.seq_num max

-- The candidate with the highest number among the files, or none if no file is one.
pub data Choice (max : ℕ) (zone : Uuid) (fs : List SnapshotFile)
    : Option SnapshotFile → Type 0 where
  no_file : All (λ f. is_candidate max zone f ≡ false) fs → Choice max zone fs none
  file :
      (g : SnapshotFile) (before after : List SnapshotFile)
      → fs ≡ before ++ g ∷ after
      → is_candidate max zone g ≡ true
      → All (λ f. is_candidate max zone f ≡ true → f.seq_num ≤ g.seq_num) fs
      → Choice max zone fs (some g)

-- The state of the loop: nothing chosen among these files, or the best of them.
data Progress (max : ℕ) (zone : Uuid) (highest : ℕ) (selected : Option SnapshotFile)
    (fs : List SnapshotFile) : Option SnapshotFile → Type 0 where
  kept :
      All (λ f. is_candidate max zone f ≡ true → f.seq_num < highest) fs
      → Progress max zone highest selected fs selected
  changed :
      (g : SnapshotFile) (before after : List SnapshotFile)
      → fs ≡ before ++ g ∷ after
      → is_candidate max zone g ≡ true
      → highest ≤ g.seq_num
      → All (λ f. is_candidate max zone f ≡ true → f.seq_num ≤ g.seq_num) fs
      → Progress max zone highest selected fs (some g)

module _ (max : ℕ) (zone : Uuid) where
  All-≤ :
      {m n : ℕ} (fs : List SnapshotFile)
      → m ≤ n
      → All (λ f. is_candidate max zone f ≡ true → f.seq_num < m) fs
      → All (λ f. is_candidate max zone f ≡ true → f.seq_num ≤ n) fs
  All-≤ [] h a = tt
  All-≤ (f ∷ fs) h a = ((λ q. omega (arith, h, a.0 q)), All-≤ fs h a.1)

  take_file :
      (f : SnapshotFile) (fs : List SnapshotFile) (highest : ℕ) (selected r : Option SnapshotFile)
      → is_candidate max zone f ≡ true
      → highest ≤ f.seq_num
      → Progress max zone f.seq_num (some f) fs r
      → Progress max zone highest selected (f ∷ fs) r
  take_file f fs highest selected r q h (kept a) =
      changed f [] fs refl q h ((λ _. omega arith), All-≤ fs (omega arith) a)
  take_file f fs highest selected r q h (changed g before after same c l a) =
      changed g (f ∷ before) after (ap (λ l. f ∷ l) same) c (omega (arith, h, l)) ((λ _. l), a)

  pass_file :
      (f : SnapshotFile) (fs : List SnapshotFile) (highest : ℕ) (selected r : Option SnapshotFile)
      → (is_candidate max zone f ≡ true → f.seq_num < highest)
      → Progress max zone highest selected fs r
      → Progress max zone highest selected (f ∷ fs) r
  pass_file f fs highest selected r q (kept a) = kept (q, a)
  pass_file f fs highest selected r q (changed g before after same c l a) =
      changed g (f ∷ before) after (ap (λ l. f ∷ l) same) c l ((λ k. omega (arith, q k, l)), a)

  step :
      (f : SnapshotFile) (fs : List SnapshotFile) (highest : ℕ)
      (selected chosen passed : Option SnapshotFile) (b : Bool)
      → (f.zone_id == zone && leb highest f.seq_num && leb f.seq_num max) ≡ b
      → Progress max zone f.seq_num (some f) fs chosen
      → Progress max zone highest selected fs passed
      → Progress max zone highest selected (f ∷ fs) (if b then chosen else passed)
  step f fs highest selected chosen passed true q p r =
      take_file f fs highest selected chosen (ground (arith, q)) (ground (arith, q)) p
  step f fs highest selected chosen passed false q p r =
      pass_file f fs highest selected passed (λ k. ground (arith, q, k)) r

  loop-Progress :
      (fs : List SnapshotFile) (highest : ℕ) (selected : Option SnapshotFile)
      → Progress max zone highest selected fs (find_snapshot max zone fs highest selected)
  unfolding find_snapshot
  loop-Progress [] highest selected = kept tt
  loop-Progress (f ∷ fs) highest selected =
      step f fs highest selected _ _ _ refl (loop-Progress fs f.seq_num (some f))
        (loop-Progress fs highest selected)

  nothing_below :
      (fs : List SnapshotFile)
      → All (λ f. is_candidate max zone f ≡ true → f.seq_num < 0) fs
      → All (λ f. is_candidate max zone f ≡ false) fs
  nothing_below [] a = tt
  nothing_below (f ∷ fs) a = (ground (arith, a.0), nothing_below fs a.1)

  started :
      (fs : List SnapshotFile) {r : Option SnapshotFile}
      → Progress max zone 0 none fs r
      → Choice max zone fs r
  started fs (kept a) = no_file (nothing_below fs a)
  started fs (changed g before after same c l a) = file g before after same c a

  -- findPreviousSnapshotForZone selects, of the zone's snapshots that are not younger than the given
  -- number, one with the highest number, and none only if there is none.
  pub find_previous_snapshot-Choice :
      (s : EventStore) → Choice max zone s.snapshots (find_previous_snapshot max zone s)
  unfolding find_previous_snapshot
  find_previous_snapshot-Choice s = started s.snapshots (loop-Progress s.snapshots 0 none)
