-- ===== src/Controller/Upkeep.antt =====
-- The state of the connection while app-lib/ConnectionController.cpp starts the poll engine.
use modbus_viewer.Prelude.{
  ℕ, zero, suc, ◌+◌, ◌-◌, ◌%◌, ◌^◌, ◌≡◌, subst, ◌⊎◌, inl, inr, Bool, true, not, ◌||◌, List, map,
  none, some, ◌==◌, >>=-eq-some, if◌then◌else◌, length, get_elem?, Bool-cases, Option-cases,
}
use modbus_viewer.Coalesce.{PollTarget, ReadRequestPlan}
use modbus_viewer.Transaction.{send_request, transmit, cancel_all}
use modbus_viewer.Poll.Engine.{
  PollEngine, may_pump, send_plan, pump_loop, pump_requests, begin_cycle, start, set_targets,
  rebuild_plans, set_interval_ms, effective_window_size,
}
use modbus_viewer.Poll.Caches.{new_cache}
use modbus_viewer.Controller.State.{
  connected, connection_lost, Controller, Session, emit, with_controller, polling_changed,
}
use modbus_viewer.Controller.Polling.{controller_wire, begin_polling}

-- The connection is there, or is being sought again.
abbrev pub IsUp : {R : Type 0} → Controller R → Type 0
IsUp c = (c.state ≡ connected) ⊎ (c.state ≡ connection_lost)

module _ {R : Type 0} (write : List ℕ → Session R → Session R)
    (write_keeps : (frame : List ℕ) (s : Session R) → IsUp s.1.1 → IsUp (write frame s).1.1) where
  send_plan-IsUp :
      (now : ℕ) (plan : ReadRequestPlan) (s : Session R)
      → IsUp s.1.1
      → IsUp (send_plan (controller_wire write) now plan s).1.1
  unfolding send_plan send_request transmit controller_wire emit
  send_plan-IsUp now plan (m, (e, c)) h = write_keeps _ _ h

  pub pump_loop-IsUp :
      (fuel window now : ℕ) (s t : Session R)
      → pump_loop (controller_wire write) fuel window now s ≡ some t
      → IsUp s.1.1
      → IsUp t.1.1
  unfolding pump_loop
  pump_loop-IsUp zero window now s t e h = elim (Bool-cases (may_pump window s.1.0)) [
    | inl b ↦ let k = rw b at e in cc
    | inr b ↦ let same : s ≡ t = cc in subst (λ u. IsUp u.1.1) same h
  ]
  pump_loop-IsUp (suc fuel) window now s t e h = elim (Bool-cases (may_pump window s.1.0)) [
    | inr b ↦
        let k : some s ≡ some t = rw (b, pump_loop) at e in
        let same : s ≡ t = cc in subst (λ u. IsUp u.1.1) same h
    | inl b ↦ elim (Option-cases (get_elem? s.1.0.plans s.1.0.next_plan_index)) [
      | inl q ↦ let k : none ≡ some t = rw (b, pump_loop, q) at e in cc
      | inr (plan, q) ↦
          let k : pump_loop (controller_wire write) fuel window now
                (send_plan (controller_wire write) now plan s)
              ≡ some t =
            rw (b, pump_loop, q) at e in
          pump_loop-IsUp fuel window now (send_plan (controller_wire write) now plan s) t k
            (send_plan-IsUp now plan s h)
    ]
  ]

  pub begin_cycle-IsUp :
      (now : ℕ) (s t : Session R)
      → begin_cycle (controller_wire write) now s ≡ some t
      → IsUp s.1.1
      → IsUp t.1.1
  unfolding begin_cycle pump_requests
  begin_cycle-IsUp now (m, (e, c)) t q h =
      elim (Bool-cases (not e.running || length e.plans == 0)) [
        | inl b ↦
            let k : some (m, (e, c)) ≡ some t = rw b at q in
            let same : (m, (e, c)) ≡ t = cc in subst (λ u. IsUp u.1.1) same h
        | inr b ↦
            let fresh = record e { next_plan_index = 0; requests_outstanding = 0 } in
            let k : pump_loop (controller_wire write) (length e.plans - 0)
                  (effective_window_size m fresh) now (m, (fresh, c))
                ≡ some t =
              rw b at q in
            pump_loop-IsUp (length e.plans - 0) (effective_window_size m fresh) now (m, (fresh, c))
              t k h
      ]

  start-IsUp :
      (now : ℕ) (s t : Session R)
      → start (controller_wire write) now s ≡ some t
      → IsUp s.1.1
      → IsUp t.1.1
  unfolding start
  start-IsUp now (m, (e, c)) t q h =
      let branch : Bool → Type 0 = λ b.
        (if b
          then some (m, (e, c))
          else begin_cycle (controller_wire write) now (m, (record e { running = true }, c)))
        ≡ some t in
      elim (Bool-cases e.running) [
        | inl b ↦
            let k : some (m, (e, c)) ≡ some t = subst branch b q in
            let same : (m, (e, c)) ≡ t = cc in subst (λ u. IsUp u.1.1) same h
        | inr b ↦
            let k : begin_cycle (controller_wire write) now (m, (record e { running = true }, c))
                ≡ some t =
              subst branch b q in
            begin_cycle-IsUp now (m, (record e { running = true }, c)) t k h
      ]

  set_targets-IsUp :
      (now : ℕ) (targets : List PollTarget) (s t : Session R)
      → set_targets (controller_wire write) now targets s ≡ some t
      → IsUp s.1.1
      → IsUp t.1.1
  unfolding set_targets
  set_targets-IsUp now targets (m, (e, c)) t q h =
      let base : PollEngine = record e {
        targets = targets;
        generation = (e.generation + 1) % 2 ^ 32;
        interval_timer = none;
      } in
      let (rebuilt, k, l) = >>=-eq-some (rebuild_plans base) _ q in
      let ready = record rebuilt { caches = map new_cache targets } in
      let branch : Bool → Type 0 = λ b.
        (if b
          then begin_cycle (controller_wire write) now (cancel_all m, (ready, c))
          else some (cancel_all m, (ready, c)))
        ≡ some t in
      elim (Bool-cases rebuilt.running) [
        | inl b ↦ begin_cycle-IsUp now (cancel_all m, (ready, c)) t (subst branch b l) h
        | inr b ↦
            let k : some (cancel_all m, (ready, c)) ≡ some t = subst branch b l in
            let same : (cancel_all m, (ready, c)) ≡ t = cc in subst (λ u. IsUp u.1.1) same h
      ]

  pub begin_polling-IsUp :
      (now : ℕ) (targets : List PollTarget) (favorites : Bool) (s t : Session R)
      → begin_polling write now targets favorites s ≡ some t
      → IsUp s.1.1
      → IsUp t.1.1
  unfolding begin_polling emit
  begin_polling-IsUp now targets favorites (m, (e, c)) t q h =
      let begun : Session R = (m, (e, record c { favorites_active = favorites })) in
      let ((m1, (e1, c1)), k, l) =
        >>=-eq-some (set_targets (controller_wire write) now targets begun) _ q in
      let ready : Session R = (m1, (set_interval_ms now c1.poll_interval_ms e1, c1)) in
      let (started, k2, l2) = >>=-eq-some (start (controller_wire write) now ready) _ l in
      let up =
        set_targets-IsUp now targets (m, (e, record c { favorites_active = favorites }))
          (m1, (e1, c1)) k h in
      let going =
        start-IsUp now (m1, (set_interval_ms now c1.poll_interval_ms e1, c1)) started k2 up in
      let same : with_controller (emit polling_changed) started ≡ t = cc in
      subst (λ u. IsUp u.1.1) same going
