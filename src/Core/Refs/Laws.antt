-- ===== src/Core/Refs/Laws.antt =====
-- What IndexOf, Remove and Dedupe do to a list.
use gomud.Base.{
  ℕ, suc, ◌+◌, ◌-◌, ◌≤◌, true, false, none, some, List, [], ◌∷◌, ◌++◌, ◌==◌, ◌||◌, if◌then◌else◌,
  length, ◌≡◌, refl, arith, Option-cases, inl, inr,
}
use gomud.Core.Data.{Ref}
use gomud.Core.Refs.{index_from, contains, remove, is_present, dedupe_loop, dedupe}

-- How often a pointer stands in a list.
abbrev pub count : Ref → List Ref → ℕ
count r [] = 0
count r (x ∷ xs) = (if x == r then 1 else 0) + count r xs

index_from-shift :
    (xs : List Ref) (r i : ℕ)
    → index_from xs r (suc i) ≡ elim (index_from xs r i) [ none ↦ none | some j ↦ some (suc j) ]
unfolding index_from
index_from-shift [] r i = refl
index_from-shift (x ∷ xs) r i = ground (arith, index_from-shift xs r (suc i))

-- Remove by recursion.
pub remove-cons :
    (x : Ref) (xs : List Ref) (r : Ref)
    → remove (x ∷ xs) r ≡ (if x == r then xs else x ∷ remove xs r)
unfolding remove index_from
remove-cons x xs r = elim (Option-cases (index_from xs r 0)) [
  | inl e ↦ ground (arith, index_from-shift xs r 0)
  | inr (i, e) ↦ ground (arith, index_from-shift xs r 0)
]

pub remove-nil : (r : Ref) → remove [] r ≡ []
unfolding remove index_from
remove-nil r = refl

pub contains-cons :
    (x : Ref) (xs : List Ref) (r : Ref) → contains (x ∷ xs) r ≡ (x == r || contains xs r)
unfolding contains index_from
contains-cons x xs r = elim (Option-cases (index_from xs r 0)) [
  | inl e ↦ ground (arith, index_from-shift xs r 0)
  | inr (i, e) ↦ ground (arith, index_from-shift xs r 0)
]

pub contains-nil : (r : Ref) → contains [] r ≡ false
unfolding contains index_from
contains-nil r = refl

pub contains-count :
    (xs : List Ref) (r : Ref) → contains xs r ≡ (if count r xs == 0 then false else true)
contains-count [] r = contains-nil r
contains-count (x ∷ xs) r = ground (arith, contains-cons x xs r, contains-count xs r)

pub count-append : (r : Ref) (xs ys : List Ref) → count r (xs ++ ys) ≡ count r xs + count r ys
count-append r [] ys = omega arith
count-append r (x ∷ xs) ys = omega (arith, count-append r xs ys)

pub count-remove_balance :
    (xs : List Ref) (r s : Ref)
    → count s (remove xs r) + (if contains xs r then (if r == s then 1 else 0) else 0) ≡ count s xs
count-remove_balance [] r s = rw (remove-nil r, contains-nil r) (omega arith)
count-remove_balance (x ∷ xs) r s =
    ground (arith, remove-cons x xs r, contains-cons x xs r, count-remove_balance xs r s)

-- Remove makes a pointer stand in the list once less often, if it stands there at all, and every
-- other pointer as often as before.
pub count-remove :
    (xs : List Ref) (r s : Ref)
    → count s (remove xs r) ≡ (if r == s then count s xs - 1 else count s xs)
count-remove xs r s = ground (arith, count-remove_balance xs r s, contains-count xs r)

pub length-remove-le : (xs : List Ref) (r : Ref) → length (remove xs r) ≤ length xs
length-remove-le [] r = rw (remove-nil r) (omega arith)
length-remove-le (x ∷ xs) r = ground (arith, remove-cons x xs r, length-remove-le xs r)

count-dedupe_loop :
    (ol present out : List Ref) (r : Ref)
    → count r (dedupe_loop ol present out)
      ≡ count r out + (if is_present present r then 0 else (if contains ol r then 1 else 0))
unfolding dedupe_loop is_present
count-dedupe_loop [] present out r = ground (arith, contains-nil r)
count-dedupe_loop (o ∷ ol) present out r = ground (
  arith,
  contains-cons o ol r,
  count-append r out (o ∷ []),
  count-dedupe_loop ol present out r,
  count-dedupe_loop ol (o ∷ present) (out ++ o ∷ []) r,
)

-- Dedupe keeps each observer of the list, once.
pub count-dedupe :
    (ol : List Ref) (r : Ref) → count r (dedupe ol) ≡ (if contains ol r then 1 else 0)
unfolding dedupe is_present
count-dedupe ol r = omega (arith, count-dedupe_loop ol [] [] r)
