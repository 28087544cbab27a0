-- ===== src/Controller/Arrivals.antt =====
-- The slots of core/poll/PollEngine.cpp and app-lib/ConnectionController.cpp on what arrives and on the
-- timers of a poll loop, and the state of the connection.
use modbus_viewer.Prelude.{
  ℕ, ◌+◌, ◌≡◌, subst, Bool, true, false, List, [], ◌∷◌, Option, none, some, >>=-eq-some,
  if◌then◌else◌,
}
use mathlib.Core.Option.{some-injective}
use modbus_viewer.Model.{is_bit_register_type}
use modbus_viewer.Pdu.Exceptions.{Message}
use modbus_viewer.Coalesce.{PollTarget, CoveredTarget, ReadRequestPlan}
use modbus_viewer.Poll.Caches.{TargetCache, Applied, filled, refused, apply_to_caches}
use modbus_viewer.Poll.Engine.{PollEngine}
use modbus_viewer.Poll.Settling.{
  fail_targets, take_applied, apply_plan_response, apply_at, fail_at, flush_one, flush_from,
  flush_pending_updates,
}
use modbus_viewer.Format.Settings.{Numerics}
use modbus_viewer.Favorites.Entries.{Favorites}
use modbus_viewer.Favorites.Operations.{FavoritesSignal}
use modbus_viewer.Controller.State.{Controller, emit}
use modbus_viewer.Controller.Polling.{controller_observer, take_update, with_favorites}
use modbus_viewer.Controller.Upkeep.{IsUp}

pub branch_kept :
    {A : Type 0} (P : A → Type 0) (b : Bool) (x y : Option A) (t : A)
    → (x ≡ some t → P t)
    → (y ≡ some t → P t)
    → (if b then x else y) ≡ some t
    → P t
branch_kept P true x y t hx hy q = hx q
branch_kept P false x y t hx hy q = hy q

module _ {R : Type 0} where
  if-IsUp : (b : Bool) (x y : Controller R) → IsUp x → IsUp y → IsUp (if b then x else y)
  if-IsUp true x y hx hy = hx
  if-IsUp false x y hx hy = hy

  take_update-IsUp :
      (o : Option (Favorites R × List FavoritesSignal)) (c : Controller R)
      → IsUp c
      → IsUp (take_update o c)
  unfolding take_update with_favorites emit
  take_update-IsUp none c h = h
  take_update-IsUp (some (f, signals)) c h = h

module _ {R : Type 0} (n : Numerics R) where
  registers-IsUp :
      (i start : ℕ) (values : List ℕ) (c : Controller R)
      → IsUp c
      → IsUp ((controller_observer n).target_registers_updated i start values c)
  unfolding controller_observer emit
  registers-IsUp i start values c h = if-IsUp c.favorites_active _ _ (take_update-IsUp _ c h) h

  bits-IsUp :
      (i start : ℕ) (values : List Bool) (c : Controller R)
      → IsUp c
      → IsUp ((controller_observer n).target_bits_updated i start values c)
  unfolding controller_observer with_favorites emit
  bits-IsUp i start values c h = if-IsUp c.favorites_active _ _ h h

  target_failed-IsUp :
      (i : ℕ) (why : Message) (c : Controller R)
      → IsUp c
      → IsUp ((controller_observer n).target_failed i why c)
  unfolding controller_observer with_favorites emit
  target_failed-IsUp i why c h = if-IsUp c.favorites_active _ _ h h

  pub poll_failed-IsUp :
      (why : Message) (c : Controller R) → IsUp c → IsUp ((controller_observer n).poll_failed why c)
  unfolding controller_observer emit
  poll_failed-IsUp why c h = h

  fail_targets-IsUp :
      (why : Message) (covered : List CoveredTarget) (c : Controller R)
      → IsUp c
      → IsUp (fail_targets (controller_observer n) why covered c)
  unfolding fail_targets
  fail_targets-IsUp why [] c h = h
  fail_targets-IsUp why (x ∷ covered) c h =
      fail_targets-IsUp why covered _ (target_failed-IsUp x.target_index why c h)

  pub fail_at-IsUp :
      (why : Message) (plan : Option ReadRequestPlan) (c : Controller R)
      → IsUp c
      → IsUp (fail_at (controller_observer n) why plan c)
  unfolding fail_at
  fail_at-IsUp why none c h = h
  fail_at-IsUp why (some plan) c h = fail_targets-IsUp why plan.covered c h

  take_applied-IsUp :
      (now : ℕ) (plan : ReadRequestPlan) (applied : Applied) (e : PollEngine) (c : Controller R)
      → IsUp c
      → IsUp (take_applied (controller_observer n) now plan applied (e, c)).1
  unfolding take_applied
  take_applied-IsUp now plan (filled caches) e c h = h
  take_applied-IsUp now plan (refused why) e c h =
      fail_targets-IsUp why plan.covered _ (poll_failed-IsUp why c h)

  pub apply_at-IsUp :
      (now : ℕ) (plan : Option ReadRequestPlan) (pdu : List ℕ) (s t : PollEngine × Controller R)
      → IsUp s.1
      → apply_at (controller_observer n) now plan pdu s ≡ some t
      → IsUp t.1
  unfolding apply_at apply_plan_response
  apply_at-IsUp now none pdu s t h q = subst (λ u. IsUp u.1) (some-injective _ _ q) h
  apply_at-IsUp now (some plan) pdu (e, c) t h q =
      let (applied, _, l) = >>=-eq-some {A = Applied} (apply_to_caches plan pdu e.caches) _ q in
      subst (λ u. IsUp u.1) (some-injective _ _ l) (take_applied-IsUp now plan applied e c h)

  flush_one-IsUp :
      (i : ℕ) (target : PollTarget) (cache : TargetCache) (c : Controller R)
      → IsUp c
      → IsUp (flush_one (controller_observer n) i target cache c)
  unfolding flush_one
  flush_one-IsUp i target cache c h =
      if-IsUp (is_bit_register_type target.register_type) _ _ (bits-IsUp i _ _ c h)
        (registers-IsUp i _ _ c h)

  flush_from-IsUp :
      (i : ℕ) (targets : List PollTarget) (caches : List TargetCache) (c : Controller R)
      (t : List TargetCache × Controller R)
      → IsUp c
      → flush_from (controller_observer n) i targets caches c ≡ some t
      → IsUp t.1
  unfolding flush_from
  flush_from-IsUp i targets [] c t h q = subst (λ u. IsUp u.1) (some-injective _ _ q) h
  flush_from-IsUp i [] (cache ∷ caches) c t h q =
      branch_kept (λ u. IsUp u.1) cache.dirty none _ t (λ r. cc)
        (λ r.
          let (u, k, l) =
            >>=-eq-some {A = List TargetCache × Controller R}
              (flush_from (controller_observer n) (i + 1) [] caches c) _ r in
          subst (λ x. IsUp x.1) (some-injective _ _ l) (flush_from-IsUp (i + 1) [] caches c u h k))
        q
  flush_from-IsUp i (target ∷ targets) (cache ∷ caches) c t h q =
      let next = if cache.dirty then flush_one (controller_observer n) i target cache c else c in
      let up = if-IsUp cache.dirty _ c (flush_one-IsUp i target cache c h) h in
      let (u, k, l) =
        >>=-eq-some {A = List TargetCache × Controller R}
          (flush_from (controller_observer n) (i + 1) targets caches next) _ q in
      subst (λ x. IsUp x.1) (some-injective _ _ l)
        (flush_from-IsUp (i + 1) targets caches next u up k)

  pub flush_pending_updates-IsUp :
      (s t : PollEngine × Controller R)
      → IsUp s.1
      → flush_pending_updates (controller_observer n) s ≡ some t
      → IsUp t.1
  unfolding flush_pending_updates
  flush_pending_updates-IsUp (e, c) t h q =
      let (u, k, l) =
        >>=-eq-some {A = List TargetCache × Controller R}
          (flush_from (controller_observer n) 0 e.targets e.caches c) _ q in
      subst (λ x. IsUp x.1) (some-injective _ _ l) (flush_from-IsUp 0 e.targets e.caches c u h k)
