-- ===== src/Transaction/Expiry/Draining.antt =====
-- The timer of core/modbus/ModbusTransactionManager.cpp, firing until no request is in flight.
use modbus_viewer.Prelude.{
  ℕ, zero, suc, ◌+◌, ◌-◌, ◌^◌, ◌≤◌, ◌<◌, ◌≡◌, refl, sym, ap, ◌∙◌, subst, none, some, List, [], ◌∷◌,
  arith, min, max, Bool-cases, ◌⊎◌, inl, inr,
}
use modbus_viewer.Pdu.Exceptions.{Message, request_timed_out}
use modbus_viewer.Transaction.{
  PendingRequest, Manager, Wire, Client, is_empty, transmit, mark_attempt, soonest,
  rearm_timeout_timer,
}
use modbus_viewer.Transaction.Expiry.{
  Sweep, sweep, sweep_one, transmit_all, fail_all, handle_timeout,
}
use modbus_viewer.Transaction.Expiry.Progress.{total_rounds_left, sweep-progress}

empty_or_more {ℓ} :
    {A : Type ℓ} (xs : List A) → (xs ≡ []) ⊎ ((x : A) × (rest : List A) × (xs ≡ x ∷ rest))
empty_or_more [] = inl refl
empty_or_more (x ∷ rest) = inr (x, rest, refl)

-- Every deadline is at most one timeout away.
unfoldable pub AllBefore : ℕ → List PendingRequest → Type 0
AllBefore limit [] = Unit
AllBefore limit (r ∷ rs) = (r.deadline ≤ limit) × AllBefore limit rs

-- The timer was armed at a time for the requests that are in flight.
pub record Waits (now : ℕ) (m : Manager) : Type 0 where
  pub armed : m.timer ≡ (rearm_timeout_timer now m).timer
  pub in_time : AllBefore (now + m.timeout_ms) m.pending
  pub short : m.timeout_ms < 2 ^ 31

AllBefore-sweep_one :
    (now fired limit : ℕ) (m : Manager) (r : PendingRequest) (s : Sweep)
    → fired + m.timeout_ms ≤ limit
    → r.deadline ≤ limit
    → AllBefore limit s.kept
    → AllBefore limit (sweep_one fired m r s).kept
unfolding sweep_one mark_attempt AllBefore
AllBefore-sweep_one now fired limit m r s later h hs = ground arith

AllBefore-sweep :
    (now fired : ℕ) (m : Manager) (rs : List PendingRequest)
    → now ≤ fired
    → AllBefore (now + m.timeout_ms) rs
    → AllBefore (fired + m.timeout_ms) (sweep fired m rs).kept
unfolding sweep AllBefore
AllBefore-sweep now fired m [] later h = tt
AllBefore-sweep now fired m (r ∷ rs) later (h, hs) =
    AllBefore-sweep_one now fired (fired + m.timeout_ms) m r (sweep fired m rs) (omega arith)
      (omega arith) (AllBefore-sweep now fired m rs later hs)

soonest-AllBefore :
    (now limit : ℕ) (r : PendingRequest) (rs : List PendingRequest)
    → AllBefore (now + limit) (r ∷ rs)
    → soonest now (r ∷ rs) ≤ limit
unfolding soonest AllBefore
soonest-AllBefore now limit r rs (h, hs) = omega arith

armed_later :
    (now fired : ℕ) (m : Manager) → (rearm_timeout_timer now m).timer ≡ some fired → now ≤ fired
unfolding rearm_timeout_timer
armed_later now fired m armed = ground arith

rearm-armed :
    (now : ℕ) (m : Manager)
    → (rearm_timeout_timer now m).timer
      ≡ (rearm_timeout_timer now (rearm_timeout_timer now m)).timer
unfolding rearm_timeout_timer
rearm-armed now m = elim (Bool-cases (is_empty m.pending)) [
  | inl b ↦ rw (b, b) refl
  | inr b ↦ rw (b, b) refl
]

rearm-same :
    (now : ℕ) (m : Manager)
    → ((rearm_timeout_timer now m).pending ≡ m.pending)
      × ((rearm_timeout_timer now m).timeout_ms ≡ m.timeout_ms)
      × ((rearm_timeout_timer now m).retry_count ≡ m.retry_count)
unfolding rearm_timeout_timer
rearm-same now m = (ground arith, ground arith, ground arith)

-- What the firing timer leaves of the manager.
abbrev swept : ℕ → Manager → Manager
swept now m = rearm_timeout_timer now (record m { pending = (sweep now m m.pending).kept })

Waits-swept :
    (now fired : ℕ) (m : Manager)
    → Waits now m
    → (rearm_timeout_timer now m).timer ≡ some fired
    → Waits fired (swept fired m)
Waits-swept now fired m h armed =
    let kept = record m { pending = (sweep fired m m.pending).kept } in
    let (queue, time, _) = rearm-same fired kept in
    record {
      armed = rearm-armed fired kept;
      in_time =
          rw (queue, time)
            (AllBefore-sweep now fired m m.pending (armed_later now fired m armed) h.in_time);
      short = rw time h.short;
    }

module _ {W : Type 0} (wire : Wire W) (client : Client W) where
  -- The timer firing a number of times, each time at the time for which it is armed.
  unfoldable pub fire_all : ℕ → Manager × W → Manager × W
  fire_all zero s = s
  fire_all (suc n) s = elim s.0.timer [
    | none ↦ s
    | some fired ↦ fire_all n (handle_timeout wire client fired s)
  ]

  module _ (write_leaves : (frame : List ℕ) (s : Manager × W) → (wire.write frame s).0 ≡ s.0)
      (client_leaves : (id : ℕ) (why : Message) (s : Manager × W)
        → (client.request_failed id why s).0 ≡ s.0) where
    transmit_all-leaves :
        (frames : List (List ℕ)) (s : Manager × W) → (transmit_all wire frames s).0 ≡ s.0
    unfolding transmit_all transmit
    transmit_all-leaves [] s = refl
    transmit_all-leaves (frame ∷ frames) s =
        transmit_all-leaves frames (transmit wire frame s)
        ∙ write_leaves frame (s.0, wire.frame_sent frame s.1)

    fail_all-leaves :
        (rs : List PendingRequest) (s : Manager × W) → (fail_all wire client rs s).0 ≡ s.0
    unfolding fail_all
    fail_all-leaves [] s = refl
    fail_all-leaves (r ∷ rs) s =
        fail_all-leaves rs
          (client.request_failed r.correlation_id (request_timed_out r.attempts_so_far) s)
        ∙ client_leaves r.correlation_id (request_timed_out r.attempts_so_far) s

    handle_timeout-swept :
        (now : ℕ) (s : Manager × W) → (handle_timeout wire client now s).0 ≡ swept now s.0
    unfolding handle_timeout
    handle_timeout-swept now (m, w) =
        fail_all-leaves (sweep now m m.pending).expired_and_exhausted _
        ∙ transmit_all-leaves (sweep now m m.pending).frames_to_retransmit (swept now m, w)

    fire_none : (n : ℕ) (s : Manager × W) → s.0.timer ≡ none → fire_all n s ≡ s
    unfolding fire_all
    fire_none zero s h = refl
    fire_none (suc n) s h = rw h refl

    fire_some :
        (n fired : ℕ) (s : Manager × W)
        → s.0.timer ≡ some fired
        → fire_all (suc n) s ≡ fire_all n (handle_timeout wire client fired s)
    unfolding fire_all
    fire_some n fired s h = rw h refl

    timer_when_pending :
        (now : ℕ) (m : Manager) (r : PendingRequest) (rs : List PendingRequest)
        → m.pending ≡ r ∷ rs
        → (fired : ℕ) × ((rearm_timeout_timer now m).timer ≡ some fired)
    unfolding rearm_timeout_timer
    timer_when_pending now m r rs e =
        (now + max 1 (min (soonest now m.pending) (2 ^ 31 - 1)), rw e refl)

    timer_when_idle :
        (now : ℕ) (m : Manager) → m.pending ≡ [] → (rearm_timeout_timer now m).timer ≡ none
    unfolding rearm_timeout_timer
    timer_when_idle now m e = rw e refl

    soonest_short :
        (now : ℕ) (m : Manager) (r : PendingRequest) (rs : List PendingRequest)
        → m.pending ≡ r ∷ rs
        → Waits now m
        → soonest now m.pending < 2 ^ 31
    soonest_short now m r rs e h =
        let within = subst (AllBefore (now + m.timeout_ms)) e h.in_time in
        let bound = soonest-AllBefore now m.timeout_ms r rs within in
        rw e (omega (arith, bound, h.short))

    rounds_positive :
        (retry_count : ℕ) (r : PendingRequest) (rs : List PendingRequest)
        → 0 < total_rounds_left retry_count (r ∷ rs)
    unfolding total_rounds_left
    rounds_positive retry_count r rs = omega arith

    drained_when_idle :
        (n now : ℕ) (s : Manager × W)
        → Waits now s.0
        → s.0.pending ≡ []
        → (fire_all n s).0.pending ≡ []
    drained_when_idle n now s h e =
        ap (λ (t : Manager × W). t.0.pending) (fire_none n s (h.armed ∙ timer_when_idle now s.0 e))
        ∙ e

    drains :
        (n now : ℕ) (s : Manager × W)
        → Waits now s.0
        → total_rounds_left s.0.retry_count s.0.pending ≤ n
        → (fire_all n s).0.pending ≡ []
    drains zero now s h enough = elim (empty_or_more s.0.pending) [
      | inl e ↦ drained_when_idle zero now s h e
      | inr (r, rs, e) ↦
          let k = rw e at enough in absurd (omega (arith, k, rounds_positive s.0.retry_count r rs))
    ]
    drains (suc n) now s h enough = elim (empty_or_more s.0.pending) [
      | inl e ↦ drained_when_idle (suc n) now s h e
      | inr (r, rs, e) ↦
          let (fired, armed) = timer_when_pending now s.0 r rs e in
          let fewer = sweep-progress now fired s.0 (soonest_short now s.0 r rs e h) armed in
          let after = handle_timeout-swept fired s in
          let (queue, _, count) =
            rearm-same fired (record s.0 { pending = (sweep fired s.0 s.0.pending).kept }) in
          let left : total_rounds_left (swept fired s.0).retry_count (swept fired s.0).pending ≤ n =
            rw (queue, count) (omega arith) in
          let t = handle_timeout wire client fired s in
          ap (λ (x : Manager × W). x.0.pending) (fire_some n fired s (h.armed ∙ armed))
          ∙ drains n fired t (subst (Waits fired) (sym after) (Waits-swept now fired s.0 h armed)) (
              subst (λ (x : Manager). total_rounds_left x.retry_count x.pending ≤ n) (sym after)
                left)
    ]

    -- Requests that get no response do not stay in flight. Once the timer has been armed for them,
    -- with a timeout below 2^31 ms and no deadline more than one timeout away, none is in flight when
    -- the timer has fired as often as the rounds that are left to them add up to, each time at the
    -- time for which it was armed. Neither the write nor the client's slot may change the manager.
    pub fire_all_drains :
        (now : ℕ) (m : Manager) (w : W)
        → Waits now m
        → (fire_all (total_rounds_left m.retry_count m.pending) (m, w)).0.pending ≡ []
    fire_all_drains now m w h =
        drains (total_rounds_left m.retry_count m.pending) now (m, w) h (omega arith)
