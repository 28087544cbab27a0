-- ===== src/Poll/Window.antt =====
-- `pumpRequests` of core/poll/PollEngine.cpp: which requests it puts in flight, and how many.
use modbus_viewer.Prelude.{
  ℕ, zero, suc, ◌+◌, ◌-◌, ◌≤◌, ◌<◌, ◌≡◌, refl, sym, ap, ◌∙◌, max, true, false, List, [], ◌∷◌, ◌++◌,
  some, arith, length, append_assoc, append-nil, get_elem?, get_elem?_below, Bool-cases, inl, inr,
  subst,
}
use modbus_viewer.Coalesce.{ReadRequestPlan}
use modbus_viewer.Transaction.{PendingRequest, Manager, Wire}
use modbus_viewer.Poll.Engine.{
  PollEngine, may_pump, send_plan, pump_loop, pump_requests, effective_window_size,
}
use modbus_viewer.Poll.Sending.{
  LeavesEngine, IsRequestOf, AreRequestsFrom, send_plan-engine, send_plan-pending,
}

-- What the loop does to the manager and the engine: it has put requests of the next plans in flight,
-- up to where it must stop.
pub record Pumped (window : ℕ) (before after : Manager × PollEngine) : Type 0 where
  pub sent : List PendingRequest
  pub in_flight : after.0.pending ≡ before.0.pending ++ sent
  pub of_plans : AreRequestsFrom before.1.plans before.1.generation before.1.next_plan_index sent
  pub moved_on : after.1.next_plan_index ≡ before.1.next_plan_index + length sent
  pub counted : after.1.requests_outstanding ≡ before.1.requests_outstanding + length sent
  pub same_plans : after.1.plans ≡ before.1.plans
  pub same_generation : after.1.generation ≡ before.1.generation
  pub same_running : after.1.running ≡ before.1.running
  pub within : after.1.requests_outstanding ≤ max window before.1.requests_outstanding
  pub ended : may_pump window after.1 ≡ false

may_pump-true :
    (window : ℕ) (e : PollEngine)
    → may_pump window e ≡ true
    → (e.next_plan_index < length e.plans) × (e.requests_outstanding < window)
unfolding may_pump
may_pump-true window e h = ground arith

may_pump-end :
    (window : ℕ) (e : PollEngine) → length e.plans ≤ e.next_plan_index → may_pump window e ≡ false
unfolding may_pump
may_pump-end window e h = ground arith

Pumped-stay :
    (window : ℕ) (m : Manager) (e : PollEngine)
    → may_pump window e ≡ false
    → Pumped window (m, e) (m, e)
unfolding AreRequestsFrom
Pumped-stay window m e h = record {
  sent = [];
  in_flight = sym (append-nil m.pending);
  of_plans = tt;
  moved_on = omega arith;
  counted = omega arith;
  same_plans = refl;
  same_generation = refl;
  same_running = refl;
  within = omega arith;
  ended = h;
}

Pumped-round :
    (window : ℕ) (m next : Manager) (e : PollEngine) (after : Manager × PollEngine)
    (r : PendingRequest)
    → may_pump window e ≡ true
    → next.pending ≡ m.pending ++ (r ∷ [])
    → IsRequestOf e.plans e.generation e.next_plan_index r
    → Pumped window
        (
          next,
          record e {
            next_plan_index = e.next_plan_index + 1;
            requests_outstanding = e.requests_outstanding + 1;
          },
        )
        after
    → Pumped window (m, e) after
unfolding AreRequestsFrom
Pumped-round window m next e after r h queued is_of p =
    let (_, room) = may_pump-true window e h in
    record {
      sent = r ∷ p.sent;
      in_flight =
          p.in_flight
          ∙ ap (λ (q : List PendingRequest). q ++ p.sent) queued
          ∙ append_assoc m.pending (r ∷ []) p.sent;
      of_plans = (is_of, p.of_plans);
      moved_on = omega (arith, p.moved_on);
      counted = omega (arith, p.counted);
      same_plans = p.same_plans;
      same_generation = p.same_generation;
      same_running = p.same_running;
      within = omega (arith, p.within, room);
      ended = p.ended;
    }

module _ {V : Type 0} (wire : Wire (PollEngine × V)) (leaves : LeavesEngine wire) where
  pump_loop-stop :
      (fuel window now : ℕ) (s : Manager × (PollEngine × V))
      → may_pump window s.1.0 ≡ false
      → pump_loop wire fuel window now s ≡ some s
  unfolding pump_loop
  pump_loop-stop zero window now s h = ground arith
  pump_loop-stop (suc fuel) window now s h = ground arith

  pump_loop-go :
      (fuel window now : ℕ) (s : Manager × (PollEngine × V)) (plan : ReadRequestPlan)
      → may_pump window s.1.0 ≡ true
      → get_elem? s.1.0.plans s.1.0.next_plan_index ≡ some plan
      → pump_loop wire (suc fuel) window now s
        ≡ pump_loop wire fuel window now (send_plan wire now plan s)
  unfolding pump_loop
  pump_loop-go fuel window now s plan h e = ground arith

  pump_loop-Pumped :
      (fuel window now : ℕ) (s : Manager × (PollEngine × V))
      → length s.1.0.plans - s.1.0.next_plan_index ≤ fuel
      → (ended : Manager × (PollEngine × V)) × (pump_loop wire fuel window now s ≡ some ended)
        × Pumped window (s.0, s.1.0) (ended.0, ended.1.0)
  pump_loop-Pumped zero window now (m, (e, v)) h =
      let still = may_pump-end window e (omega arith) in
      (_, pump_loop-stop zero window now (m, (e, v)) still, Pumped-stay window m e still)
  pump_loop-Pumped (suc fuel) window now (m, (e, v)) h = elim (Bool-cases (may_pump window e)) [
    | inr still ↦
        (_, pump_loop-stop (suc fuel) window now (m, (e, v)) still, Pumped-stay window m e still)
    | inl go ↦
        let (more, _) = may_pump-true window e go in
        let (plan, found) = get_elem?_below e.plans e.next_plan_index more in
        let next = send_plan wire now plan (m, (e, v)) in
        let same = send_plan-engine wire leaves now plan m e v in
        let (r, queued, is_of) = send_plan-pending wire leaves now plan m e v found in
        let shorter : length next.1.0.plans - next.1.0.next_plan_index ≤ fuel =
          rw same (omega arith) in
        let (ended, run, p) = pump_loop-Pumped fuel window now next shorter in
        (
          ended,
          pump_loop-go fuel window now (m, (e, v)) plan go found ∙ run,
          Pumped-round window m next.0 e (ended.0, ended.1.0) r go queued is_of
              (subst (λ (x : PollEngine). Pumped window (next.0, x) (ended.0, ended.1.0)) same p),
        )
  ]

  -- Pumping always ends. It puts requests of the next plans in flight, one for each plan in their
  -- order, each with its plan's device, the bytes that ask for its values and a correlation id of the
  -- generation and the index; and it stops where the engine is stopped, no plan is left or the window
  -- is full. The requests outstanding never become more than the window unless they were before. The
  -- transport must call neither the manager nor the engine while it writes.
  pub pump_requests-Pumped :
      (now : ℕ) (m : Manager) (e : PollEngine) (v : V)
      → (ended : Manager × (PollEngine × V)) × (pump_requests wire now (m, (e, v)) ≡ some ended)
        × Pumped (effective_window_size m e) (m, e) (ended.0, ended.1.0)
  unfolding pump_requests
  pump_requests-Pumped now m e v =
      pump_loop-Pumped (length e.plans - e.next_plan_index) (effective_window_size m e) now
        (m, (e, v)) (omega arith)
