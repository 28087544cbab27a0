-- ===== src/Controller/Links.antt =====
-- app-lib/ConnectionController.cpp once a connection has been established: what the transports and the
-- reconnect timer can do to its state.
use modbus_viewer.Prelude.{
  ℕ, ◌≡◌, subst, inl, inr, Bool, true, false, List, [], ◌∷◌, none, some, >>=-eq-some, if◌then◌else◌,
  Bool-cases,
}
use modbus_viewer.Prelude.Texts.{Text}
use modbus_viewer.Transaction.{Manager}
use modbus_viewer.Transaction.Receive.{handle_data_received}
use modbus_viewer.Transaction.Expiry.{handle_timeout}
use modbus_viewer.Transaction.Keeping.{handle_data_received_kept, handle_timeout_kept}
use modbus_viewer.Poll.Engine.{PollEngine, handle_interval_timer}
use modbus_viewer.Poll.Settling.{flush_pending_updates}
use modbus_viewer.Format.Settings.{Numerics}
use modbus_viewer.Controller.State.{
  connected, connection_lost, state_eq, ConnectionType, by_tcp, by_rtu, Controller, Session,
}
use modbus_viewer.Controller.Polling.{
  controller_wire, controller_observer, start_polling, start_polling_favorites,
}
use modbus_viewer.Controller.Upkeep.{IsUp, begin_cycle-IsUp, begin_polling-IsUp}
use modbus_viewer.Controller.Arrivals.{flush_pending_updates-IsUp}
use modbus_viewer.Controller.Answers.{controller_client, controller-IsKept}
use modbus_viewer.Controller.Connection.{
  TransportEvent, connection_state, error_occurred, Qt, handle_lost, mark_connected,
  handle_transport_error, resume_polling, handle_transport_connection_state_changed, handle_event,
  handle_events, open_active_transport, begin_reconnect_attempt,
}
use modbus_viewer.Controller.Losing.{
  mark_connected-IsUp, handle_lost-IsUp, handle_transport_error-IsUp,
}

-- What happens to a session without the user: a connection change or an error that a transport emits,
-- bytes that arrive, and the timers of the responses, of the poll loop, of its flush and of the
-- reconnects firing. A `none` is a loop without end or a read outside a list.
pub data LinkStep {R : Type 0} (n : Numerics R) (write : List ℕ → Session R → Session R) (qt : Qt)
    : Session R → Session R → Type 0 where
  event :
      (now : ℕ) (happened : TransportEvent) (s t : Session R)
      → handle_event write now happened s ≡ some t
      → LinkStep n write qt s t
  arrival :
      (now : ℕ) (bytes : List ℕ) (s t : Session R)
      → handle_data_received (controller_wire write) (controller_client n write now) now bytes s
        ≡ some t
      → LinkStep n write qt s t
  response_timer :
      (now : ℕ) (s : Session R)
      → LinkStep n write qt s
          (handle_timeout (controller_wire write) (controller_client n write now) now s)
  poll_timer :
      (now : ℕ) (s t : Session R)
      → handle_interval_timer (controller_wire write) now s ≡ some t
      → LinkStep n write qt s t
  flush :
      (m : Manager) (s t : PollEngine × Controller R)
      → flush_pending_updates (controller_observer n) s ≡ some t
      → LinkStep n write qt (m, s) (m, t)
  retry :
      (now : ℕ) (s t : Session R)
      → begin_reconnect_attempt write qt now s ≡ some t
      → LinkStep n write qt s t

pub data LinkReach {R : Type 0} (n : Numerics R) (write : List ℕ → Session R → Session R) (qt : Qt)
    (s : Session R) : Session R → Type 0 where
  here : LinkReach n write qt s s
  further :
      {t u : Session R}
      → LinkReach n write qt s t
      → LinkStep n write qt t u
      → LinkReach n write qt s u

module _ {R : Type 0} (write : List ℕ → Session R → Session R)
    (write_keeps : (frame : List ℕ) (s : Session R) → IsUp s.1.1 → IsUp (write frame s).1.1) where
  some-IsUp : (s t : Session R) → some s ≡ some t → IsUp s.1.1 → IsUp t.1.1
  some-IsUp s t q h = let same : s ≡ t = cc in subst (λ u. IsUp u.1.1) same h

  resume_polling-IsUp :
      (now : ℕ) (s t : Session R) → resume_polling write now s ≡ some t → IsUp s.1.1 → IsUp t.1.1
  unfolding resume_polling start_polling start_polling_favorites
  resume_polling-IsUp now (m, (e, c)) t q h =
      let cleared : Controller R = record c { resume_polling_on_reconnect = false } in
      let favorites = start_polling_favorites write now true (m, (e, cleared)) in
      let range =
        start_polling write now c.poll_register_type c.poll_start_address c.poll_quantity
          (m, (e, cleared)) in
      let branch : Bool → Bool → Type 0 =
        λ a b. (if a then if b then favorites else range else some (m, (e, c))) ≡ some t in
      elim (Bool-cases c.resume_polling_on_reconnect) [
        | inr a ↦ some-IsUp (m, (e, c)) t (subst (λ a. branch a c.favorites_active) a q) h
        | inl a ↦
            let k : branch true c.favorites_active = subst (λ a. branch a c.favorites_active) a q in
            elim (Bool-cases c.favorites_active) [
              | inl b ↦ begin_polling-IsUp write write_keeps now _ _ _ t (subst (branch true) b k) h
              | inr b ↦ begin_polling-IsUp write write_keeps now _ _ _ t (subst (branch true) b k) h
            ]
      ]

  handle_event-IsUp :
      (now : ℕ) (happened : TransportEvent) (s t : Session R)
      → handle_event write now happened s ≡ some t
      → IsUp s.1.1
      → IsUp t.1.1
  unfolding handle_event handle_transport_connection_state_changed
  handle_event-IsUp now (connection_state true) (m, (e, c)) t q h =
      resume_polling-IsUp now (m, (e, mark_connected c)) t q (mark_connected-IsUp c)
  handle_event-IsUp now (connection_state false) s t q h =
      some-IsUp (handle_lost now s) t q (handle_lost-IsUp now s h)
  handle_event-IsUp now (error_occurred message) s t q h =
      some-IsUp (handle_transport_error now message s) t q
        (handle_transport_error-IsUp now message s h)

  handle_events-IsUp :
      (now : ℕ) (events : List TransportEvent) (s t : Session R)
      → handle_events write now events s ≡ some t
      → IsUp s.1.1
      → IsUp t.1.1
  unfolding handle_events
  handle_events-IsUp now [] s t q h = some-IsUp s t q h
  handle_events-IsUp now (happened ∷ events) s t q h =
      let (u, k, l) = >>=-eq-some (handle_event write now happened s) _ q in
      handle_events-IsUp now events u t l (handle_event-IsUp now happened s u k h)

  open_as-IsUp :
      (qt : Qt) (now : ℕ) (m : Manager) (e : PollEngine) (c : Controller R) (type : ConnectionType)
      (t : Session R)
      → open_active_transport write qt now (m, (e, record c { connection_type = type })) ≡ some t
      → IsUp c
      → IsUp t.1.1
  unfolding open_active_transport
  open_as-IsUp qt now m e c by_tcp t q h = handle_events-IsUp now _ _ t q h
  open_as-IsUp qt now m e c by_rtu t q h = handle_events-IsUp now _ _ t q h

  begin_reconnect_attempt-IsUp :
      (qt : Qt) (now : ℕ) (s t : Session R)
      → begin_reconnect_attempt write qt now s ≡ some t
      → IsUp s.1.1
      → IsUp t.1.1
  unfolding begin_reconnect_attempt
  begin_reconnect_attempt-IsUp qt now (m, (e, c)) t q h =
      let fired : Controller R = record c { reconnect_timer = none } in
      let opened = open_active_transport write qt now (m, (e, fired)) in
      let branch : Bool → Type 0 = λ b. (if b then opened else some (m, (e, fired))) ≡ some t in
      elim (Bool-cases (state_eq c.state connection_lost)) [
        | inl b ↦ open_as-IsUp qt now m e fired c.connection_type t (subst branch b q) h
        | inr b ↦ some-IsUp (m, (e, fired)) t (subst branch b q) h
      ]

  LinkStep-IsUp :
      {n : Numerics R} {qt : Qt} {s t : Session R}
      → LinkStep n write qt s t
      → IsUp s.1.1
      → IsUp t.1.1
  unfolding handle_interval_timer
  LinkStep-IsUp (event now happened s t q) h = handle_event-IsUp now happened s t q h
  LinkStep-IsUp {n} (arrival now bytes s t q) h =
      handle_data_received_kept (controller_wire write) (controller_client n write now)
        (λ w. IsUp w.1) (controller-IsKept n write write_keeps now) now bytes s t h q
  LinkStep-IsUp {n} (response_timer now s) h =
      handle_timeout_kept (controller_wire write) (controller_client n write now) (λ w. IsUp w.1)
        (controller-IsKept n write write_keeps now) now s h
  LinkStep-IsUp (poll_timer now (m, (e, c)) t q) h =
      begin_cycle-IsUp write write_keeps now (m, (record e { interval_timer = none }, c)) t q h
  LinkStep-IsUp {n} (flush m s t q) h = flush_pending_updates-IsUp n s t h q
  LinkStep-IsUp (retry now s t q) h = begin_reconnect_attempt-IsUp _ now s t q h

  LinkReach-kept :
      {n : Numerics R} {qt : Qt} {s t : Session R}
      → LinkReach n write qt s t
      → s.1.1.state ≡ connected
      → IsUp t.1.1
  LinkReach-kept here h = inl h
  LinkReach-kept (further r step) h = LinkStep-IsUp step (LinkReach-kept r h)

-- What a socket or a port can emit before its write returns.
pub data Loss : Type 0 where
  closed : Loss
  went_wrong : Text → Loss

module _ {R : Type 0} where
  abbrev pub lose : ℕ → Loss → Session R → Session R
  lose now closed s = handle_lost now s
  lose now (went_wrong message) s = handle_transport_error now message s

  abbrev pub lose_all : List (ℕ × Loss) → Session R → Session R
  lose_all [] s = s
  lose_all ((now, loss) ∷ losses) s = lose_all losses (lose now loss s)

  -- The write of a transport, with the losses that it meets at a frame.
  abbrev pub losing_write : (List ℕ → List (ℕ × Loss)) → List ℕ → Session R → Session R
  losing_write losses frame s = lose_all (losses frame) s

  lose_all-IsUp :
      (losses : List (ℕ × Loss)) (s : Session R) → IsUp s.1.1 → IsUp (lose_all losses s).1.1
  lose_all-IsUp [] s h = h
  lose_all-IsUp ((now, closed) ∷ losses) s h =
      lose_all-IsUp losses (handle_lost now s) (handle_lost-IsUp now s h)
  lose_all-IsUp ((now, went_wrong message) ∷ losses) s h =
      lose_all-IsUp losses (handle_transport_error now message s)
        (handle_transport_error-IsUp now message s h)

  -- Once connected, the session stays connected or with its connection lost, whatever connection
  -- changes and errors the transports emit, losses before a write returns included, whatever bytes
  -- arrive and whichever of its timers fire, in any order: it does not become `failed`, `connecting`
  -- or `disconnected` without the user.
  pub LinkReach-IsUp :
      (losses : List ℕ → List (ℕ × Loss)) {n : Numerics R} {qt : Qt} {s t : Session R}
      → LinkReach n (losing_write losses) qt s t
      → s.1.1.state ≡ connected
      → IsUp t.1.1
  LinkReach-IsUp losses r h =
      LinkReach-kept (losing_write losses) (λ frame s up. lose_all-IsUp (losses frame) s up) r h
