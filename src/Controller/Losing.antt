-- ===== src/Controller/Losing.antt =====
-- The state of the connection when app-lib/ConnectionController.cpp loses or finds it.
use modbus_viewer.Prelude.{
  ℕ, ◌≡◌, refl, sym, ap, subst, inl, inr, Bool, true, false, ◌||◌, none, if◌then◌else◌, Bool-cases,
}
use modbus_viewer.Prelude.Texts.{Text}
use modbus_viewer.Controller.State.{
  ConnectionState, disconnected, connecting, connected, connection_lost, failed, state_eq,
  Controller, Session, emit, set_state, state_changed,
}
use modbus_viewer.Controller.Upkeep.{IsUp}
use modbus_viewer.Controller.Connection.{
  handle_lost, mark_connected, mark_lost, handle_transport_error,
}

state_is_connected : (a : ConnectionState) → state_eq a connected ≡ true → a ≡ connected
state_is_connected disconnected h = cc
state_is_connected connecting h = cc
state_is_connected connected h = refl
state_is_connected connection_lost h = cc
state_is_connected failed h = cc

state_is_lost : (a : ConnectionState) → state_eq a connection_lost ≡ true → a ≡ connection_lost
state_is_lost disconnected h = cc
state_is_lost connecting h = cc
state_is_lost connected h = cc
state_is_lost connection_lost h = refl
state_is_lost failed h = cc

module _ {R : Type 0} where
  set_state_lem :
      (s : ConnectionState) (c : Controller R)
      → ((a : ConnectionState) → state_eq a s ≡ true → a ≡ s)
      → (set_state s c).state ≡ s
  unfolding set_state emit
  set_state_lem s c sound = elim (Bool-cases (state_eq c.state s)) [
    | inl b ↦
        subst (λ q. (if q then c else emit state_changed (record c { state = s })).state ≡ s)
          (sym b) (sound c.state b)
    | inr b ↦
        subst (λ q. (if q then c else emit state_changed (record c { state = s })).state ≡ s)
          (sym b) refl
  ]

  pub mark_connected-IsUp : (c : Controller R) → IsUp (mark_connected c)
  unfolding mark_connected emit
  mark_connected-IsUp c =
      let there =
        set_state_lem connected (record c { reconnect_timer = none }) state_is_connected in
      elim (Bool-cases (state_eq c.state connection_lost)) [
        | inl b ↦ rw b (inl there)
        | inr b ↦ rw b (inl there)
      ]

  mark_lost-IsUp : (now : ℕ) (was : Bool) (c : Controller R) → IsUp (mark_lost now was c)
  unfolding mark_lost emit
  mark_lost-IsUp now true c = inr (set_state_lem connection_lost c state_is_lost)
  mark_lost-IsUp now false c = inr (set_state_lem connection_lost c state_is_lost)

  pub handle_lost-IsUp : (now : ℕ) (s : Session R) → IsUp s.1.1 → IsUp (handle_lost now s).1.1
  unfolding handle_lost
  handle_lost-IsUp now (m, (e, c)) h =
      elim (Bool-cases (state_eq c.state connected || state_eq c.state connection_lost)) [
        | inl b ↦ rw b (mark_lost-IsUp now (state_eq c.state connected) _)
        | inr b ↦ rw b h
      ]

  pub handle_transport_error-IsUp :
      (now : ℕ) (message : Text) (s : Session R)
      → IsUp s.1.1
      → IsUp (handle_transport_error now message s).1.1
  unfolding handle_transport_error emit
  handle_transport_error-IsUp now message (m, (e, c)) h =
      elim (Bool-cases (state_eq c.state connected)) [
        | inl b ↦ rw b (handle_lost-IsUp now _ h)
        | inr b ↦ elim h [
          | inl up ↦
              let other : state_eq c.state connected ≡ true = ap (λ a. state_eq a connected) up in
              cc
          | inr lost ↦
              let other : state_eq c.state connection_lost ≡ true =
                ap (λ a. state_eq a connection_lost) lost in
              rw (b, other) (inr lost)
        ]
      ]
