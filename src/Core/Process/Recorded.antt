-- ===== src/Core/Process/Recorded.antt =====
-- The numbering and applying of events in the handlers of core/zone.go, against ReplayEvents.
use gomud.Base.{ℕ, List, [], ◌∷◌, ◌++◌, ◌≡◌, refl, map, ap, sym, ◌∙◌, subst}
use mathlib.Core.Path.{ap₂}
use gomud.Core.Data.{Ref}
use gomud.Core.Monad.{Outcome, returns, fails, panics, and_then}
use gomud.Core.Body.{Body}
use gomud.Core.Event.{Event, Payload}
use gomud.Core.Apply.{Value, apply_payload}
use gomud.Core.Process.Inversion.{returns_state, returns_value, and_then-eq-returns}
use gomud.Core.Zone.{State, next_number, back_in, finish, apply_event, submit, submit_all, replay}

-- The events are numbered one after the other, from `n`.
abbrev pub Numbered : ℕ → List Event → Type 0
Numbered n [] = Unit {0}
Numbered n (e ∷ es) = (e.sequence_num ≡ n) × Numbered (next_number n) es

-- The number that follows those of the events.
abbrev pub number_after : ℕ → List Event → ℕ
number_after n [] = n
number_after n (e ∷ es) = number_after (next_number n) es

-- The events lead from one state of the zone to the other.
pub record Records (s : State) (es : List Event) (t : State) : Type 0 where
  pub numbered : Numbered s.next_sequence_id es
  pub counted : t.next_sequence_id ≡ number_after s.next_sequence_id es
  pub replayed : replay es s ≡ returns tt t
  pub persister_kept : t.persister ≡ s.persister
  pub persisted_kept : t.persisted ≡ s.persisted

-- Applying an event that succeeds sets the zone's number anew, so it does not matter which it was.
finish-number :
    (e : Event) (s : State) (n : ℕ) (r : Outcome Body (Value × List Ref)) {v : Value} {t : State}
    → and_then (back_in r (record s { next_sequence_id = n })) (finish e) ≡ returns v t
    → (and_then (back_in r s) (finish e) ≡ returns v t)
      × (t.next_sequence_id ≡ next_number e.sequence_num)
      × (t.persister ≡ s.persister)
      × (t.persisted ≡ s.persisted)
finish-number e s n (returns (v, os) b) q = (q, cc, cc, cc)
finish-number e s n (fails x b) q = cc
finish-number e s n panics q = cc

apply_event-number :
    (e : Event) (s : State) (n : ℕ) {v : Value} {t : State}
    → apply_event e (record s { next_sequence_id = n }) ≡ returns v t
    → (apply_event e s ≡ returns v t)
      × (t.next_sequence_id ≡ next_number e.sequence_num)
      × (t.persister ≡ s.persister)
      × (t.persisted ≡ s.persisted)
unfolding apply_event
apply_event-number e s n q = finish-number e s n (apply_payload e.payload s.body) q

pub number_after-append :
    (n : ℕ) (es fs : List Event) → number_after n (es ++ fs) ≡ number_after (number_after n es) fs
number_after-append n [] fs = refl
number_after-append n (e ∷ es) fs = number_after-append (next_number n) es fs

pub Numbered-append :
    (n : ℕ) (es fs : List Event)
    → Numbered n es
    → Numbered (number_after n es) fs
    → Numbered n (es ++ fs)
Numbered-append n [] fs p q = q
Numbered-append n (e ∷ es) fs p q = (p.0, Numbered-append (next_number n) es fs p.1 q)

Records-nil : (s : State) → Records s [] s
unfolding replay
Records-nil s = record {
  numbered = tt;
  counted = refl;
  replayed = refl;
  persister_kept = refl;
  persisted_kept = refl;
}

-- An outcome that is returned with a label.
labelled :
    {A : Type 0} (x : Event) (r : Outcome State A) {a : A} {e : Event} {t : State}
    → and_then {B = A × Event} r (λ v u. returns (v, x) u) ≡ returns (a, e) t
    → (x ≡ e) × (r ≡ returns a t)
labelled x (returns v u) q = (cc, cc)
labelled x (fails y u) q = cc
labelled x panics q = cc

applied-Records :
    (e : Event) (s : State) {v : Value} {t : State}
    → e.sequence_num ≡ s.next_sequence_id
    → apply_event e (record s { next_sequence_id = next_number s.next_sequence_id }) ≡ returns v t
    → Records s (e ∷ []) t
unfolding replay
applied-Records e s h q =
    let number = apply_event-number e s (next_number s.next_sequence_id) q in
    record {
      numbered = (h, tt);
      counted = number.1 ∙ ap next_number h;
      replayed = rw number.0;
      persister_kept = number.2;
      persisted_kept = number.3;
    }

-- `submit` records one event.
pub submit-Records :
    (p : Payload) (s : State) {v : Value} {e : Event} {t : State}
    → submit p s ≡ returns (v, e) t
    → Records s (e ∷ []) t × (e.payload ≡ p)
unfolding submit
submit-Records p s {v} {e} {t} q =
    let first : Event = record { sequence_num = s.next_sequence_id; payload = p } in
    let (same, done) = labelled first _ q in
    (
      subst (λ x. Records s (x ∷ []) t) same (applied-Records first s refl done),
      ap (λ (x : Event). x.payload) (sym same),
    )

pub replay-append :
    (es fs : List Event) (s : State) {t : State}
    → replay es s ≡ returns tt t
    → replay (es ++ fs) s ≡ replay fs t
unfolding replay
replay-append [] fs s q = ap (replay fs) (returns_state q)
replay-append (e ∷ es) fs s q =
    let (v, u, first, rest) = and_then-eq-returns (apply_event e s) (λ _ t. replay es t) q in
    rw first (replay-append es fs u rest)

pub Records-append :
    {s t u : State} (es fs : List Event) → Records s es t → Records t fs u → Records s (es ++ fs) u
Records-append es fs p q = record {
  numbered = Numbered-append _ es fs p.numbered (subst (λ n. Numbered n fs) p.counted q.numbered);
  counted = q.counted ∙ ap (λ n. number_after n fs) p.counted ∙ sym (number_after-append _ es fs);
  replayed = replay-append es fs _ p.replayed ∙ q.replayed;
  persister_kept = q.persister_kept ∙ p.persister_kept;
  persisted_kept = q.persisted_kept ∙ p.persisted_kept;
}

Records-returns :
    {s t u : State} {es fs : List Event}
    → Records s es t
    → returns es t ≡ returns fs u
    → Records s fs u
Records-returns {s} {u = u} {es = es} h q =
    subst (λ fs. Records s fs u) (returns_value q) (subst (Records s es) (returns_state q) h)

-- The loop that numbers and applies a list of events records exactly them, in order.
pub submit_all-Records :
    (ps : List Payload) (s : State) {es : List Event} {t : State}
    → submit_all ps s ≡ returns es t
    → Records s es t × (map (λ (e : Event). e.payload) es ≡ ps)
unfolding submit_all
submit_all-Records [] s {es} {t} q =
    (Records-returns (Records-nil s) q, ap (map (λ (e : Event). e.payload)) (sym (returns_value q)))
submit_all-Records (p ∷ ps) s {es} {t} q =
    let ((v, e), u, first, rest) =
      and_then-eq-returns (submit p s)
        (λ r t. and_then (submit_all ps t) λ fs u. returns (r.1 ∷ fs) u) q in
    let (fs, w, later, last) =
      and_then-eq-returns (submit_all ps u) (λ fs u. returns (e ∷ fs) u) rest in
    let (head, same) = submit-Records p s first in
    let (tail, sames) = submit_all-Records ps u later in
    (
      Records-returns (Records-append (e ∷ []) fs head tail) last,
      ap (map (λ (f : Event). f.payload)) (sym (returns_value last)) ∙ ap₂ ◌∷◌ same sames,
    )
