-- ===== src/Core/Process/Blows.antt =====
-- processCombatMeleeCommand of core/zone.go, without a death.
use gomud.Base.{
  Bool, false, Option, List, [], ◌∷◌, ◌≡◌, refl, sym, ◌∙◌, ap, arith, ◌⊎◌, inl, inr, ℤ, pos, ◌-ℤ◌,
  ◌≤ℤ◌, leb_ℤ, -ℤ_parts,
}
use gomud.Core.Data.{Ref, AttributeSet}
use gomud.Core.Monad.{Error, Outcome, returns, fails, panics, M, and_then, guard, deref}
use gomud.Core.Body.{Body}
use gomud.Core.Event.{
  Event, Payload, CombatDodge, CombatMeleeDamage, combat_dodge, combat_melee_damage,
}
use gomud.Core.Command.{CombatMeleeCommand, Roll, dodged, hit}
use gomud.Core.Apply.{Value, nothing, apply_payload}
use gomud.Core.Apply.Actors.{apply_combat_dodge, apply_combat_melee_damage, fighter_observers}
use gomud.Core.Zone.{State, back_in, submit, submit_all}
use gomud.Core.Process.Inversion.{returns_state, submit-Applied, and_then-eq-returns}
use gomud.Core.Process.Rules.{guard-rule, deref-rule}
use gomud.Core.Process.Deaths.{is_fatal, strike, melee_payloads, process_combat_melee}
use gomud.Core.Process.Burials.{IsFatal}

left_over : (a b : ℤ) → (a ≤ℤ b → ⊥) → leb_ℤ (a -ℤ b) (pos 0) ≡ false
left_over a b h = ground (arith, -ℤ_parts a b)

is_fatal-left_over :
    (attrs : AttributeSet) (p s f : ℤ)
    → ¬ ((attrs.physical ≤ℤ p) ⊎ (attrs.stamina ≤ℤ s) ⊎ (attrs.focus ≤ℤ f))
    → is_fatal attrs p s f ≡ false
unfolding is_fatal
is_fatal-left_over attrs p s f h =
    rw
      (
        left_over attrs.physical p (λ q. h (inl q)),
        left_over attrs.stamina s (λ q. h (inr (inl q))),
        left_over attrs.focus f (λ q. h (inr (inr q))),
      )
      refl

-- The events of a blow.
data Blow : Payload → Type 0 where
  a_dodge : (e : CombatDodge) → Blow (combat_dodge e)
  a_damage : (e : CombatMeleeDamage) → Blow (combat_melee_damage e)

Blow-actors_by_id :
    {p : Payload} (b c : Body) (v : Value) (os : List Ref)
    → Blow p
    → apply_payload p b ≡ returns (v, os) c
    → c.actors_by_id ≡ b.actors_by_id
unfolding apply_payload apply_combat_dodge apply_combat_melee_damage fighter_observers
Blow-actors_by_id b c v os (a_dodge e) q = ground arith
Blow-actors_by_id b c v os (a_damage e) q = ground arith

-- One event of a blow, if the code succeeds, and the memory as it was.
data Strikes (b : Body) : Outcome Body (List Payload) → Type 0 where
  strikes : (p : Payload) → Blow p → Strikes b (returns (p ∷ []) b)
  missed : (e : Error) (c : Body) → Strikes b (fails e c)
  crashed : Strikes b panics

deref-Strikes :
    {A : Type 0} (o : Option A) (b : Body) (f : A → M Body (List Payload))
    → ((a : A) → Strikes b (f a b))
    → Strikes b (and_then (deref o b) f)
deref-Strikes o b f h = deref-rule (Strikes b) missed crashed o b f h

guard-Strikes :
    (test : Bool) (e : Error) (b : Body) (f : Unit {0} → M Body (List Payload))
    → Strikes b (f tt b)
    → Strikes b (and_then (guard test e b) f)
guard-Strikes test e b f h = guard-rule (Strikes b) missed crashed test e b f h

strike-Strikes :
    (c : CombatMeleeCommand) (roll : Roll) (b : Body)
    → ¬ IsFatal c b roll
    → Strikes b (strike c roll b)
unfolding strike
strike-Strikes c dodged b h = strikes _ (a_dodge _)
strike-Strikes c (hit physical stamina focus) b h =
    rw (is_fatal-left_over (b.actors c.target).attributes physical stamina focus h)
      (strikes _ (a_damage _))

melee_payloads-Strikes :
    (c : CombatMeleeCommand) (b : Body) → ¬ IsFatal c b c.roll → Strikes b (melee_payloads c b)
unfolding melee_payloads
melee_payloads-Strikes c b h = search (deref-Strikes, guard-Strikes, strike-Strikes)

submitted :
    (p : Payload) (s : State) {r : Value × List Event} {t : State}
    → and_then {B = Value × List Event} (submit_all (p ∷ []) s) (λ es u. returns (nothing, es) u)
      ≡ returns r t
    → Blow p
    → t.body.actors_by_id ≡ s.body.actors_by_id
unfolding submit_all
submitted p s {r} {t} q blow =
    let (es, u, all, last) =
      and_then-eq-returns (submit_all (p ∷ []) s) (λ es u. returns (nothing, es) u) q in
    let (x, w, one, rest) =
      and_then-eq-returns {B = List Event} (submit p s) (λ x u. returns (x.1 ∷ []) u) all in
    let (v, os, done) = submit-Applied p s one in
    ap (λ (z : State). z.body.actors_by_id) (sym (returns_state rest ∙ returns_state last))
    ∙ Blow-actors_by_id s.body w.body v os blow done

spared :
    (s : State) (o : Outcome Body (List Payload)) {r : Value × List Event} {t : State}
    → Strikes s.body o
    → and_then (back_in o s) (λ ps u.
      and_then {B = Value × List Event} (submit_all ps u) (λ es w. returns (nothing, es) w))
      ≡ returns r t
    → t.body.actors_by_id ≡ s.body.actors_by_id
spared s o (strikes p blow) q = submitted p s q blow
spared s o (missed e c) q = cc
spared s o crashed q = cc

-- After a melee that is dodged, or whose hit takes less than what is left of each of the target's
-- physical, stamina and focus attributes, if it succeeds, the zone knows the same actors as before.
pub process_combat_melee-spares :
    (c : CombatMeleeCommand) (s : State) {r : Value × List Event} {t : State}
    → ¬ IsFatal c s.body c.roll
    → process_combat_melee c s ≡ returns r t
    → t.body.actors_by_id ≡ s.body.actors_by_id
unfolding process_combat_melee
process_combat_melee-spares c s h q =
    spared s (melee_payloads c s.body) (melee_payloads-Strikes c s.body h) q
