-- ===== src/Controller/Polling.antt =====
-- Polling in app-lib/ConnectionController.cpp: what it starts and stops, and its slots on the signals of
-- the poll engine and of the transaction manager.
use modbus_viewer.Prelude.{
  ℕ, ◌%◌, Bool, true, false, List, [], ◌∷◌, Option, none, some, ◌>>=◌, if◌then◌else◌,
}
use modbus_viewer.Model.{RegisterType}
use modbus_viewer.Coalesce.{PollTarget}
use modbus_viewer.Transaction.{Wire}
use modbus_viewer.Poll.Engine.{PollEngine, Observer, stop, start, set_targets, set_interval_ms}
use modbus_viewer.Format.Settings.{Numerics}
use modbus_viewer.Favorites.Entries.{Favorites}
use modbus_viewer.Favorites.Operations.{
  FavoritesSignal, build_poll_targets, apply_register_update, apply_bit_update, mark_stale,
}
use modbus_viewer.Controller.State.{
  Controller, Session, emit, with_controller, polling_changed, holding_registers_read, bits_read,
  operation_failed, register_read_failed, communication_logged, favorites_emitted, tx, rx,
}

module _ {R : Type 0} where
  -- The slots on `frameSent` and `frameReceived`; `write` is that of the transport.
  unfoldable pub controller_wire :
      (List ℕ → Session R → Session R) → Wire (PollEngine × Controller R)
  controller_wire write = record {
    frame_sent = λ frame w. (w.0, emit (communication_logged 0 (tx frame)) w.1);
    frame_received = λ frame w. (w.0, emit (communication_logged 1 (rx frame)) w.1);
    write = write;
  }

  unfoldable pub with_favorites : Favorites R × List FavoritesSignal → Controller R → Controller R
  with_favorites (f, signals) c = emit (favorites_emitted signals) (record c { favorites = f })

  unfoldable pub take_update :
      Option (Favorites R × List FavoritesSignal) → Controller R → Controller R
  take_update none c = record c { broken = true }
  take_update (some updated) c = with_favorites updated c

module _ {R : Type 0} (n : Numerics R) where
  -- The slots on the signals of the poll engine.
  unfoldable pub controller_observer : Observer (Controller R)
  controller_observer = record {
    target_registers_updated = λ target_index start_address values c.
        if c.favorites_active
        then take_update (apply_register_update n target_index values c.favorites) c
        else emit (holding_registers_read start_address values) c;
    target_bits_updated = λ target_index start_address values c.
        if c.favorites_active
        then with_favorites (apply_bit_update target_index values c.favorites) c
        else emit (bits_read start_address values) c;
    poll_failed = λ message c. emit (operation_failed message) c;
    target_failed = λ target_index reason c.
        if c.favorites_active
        then with_favorites (mark_stale target_index c.favorites) c
        else emit (register_read_failed reason) c;
    poll_cycle_completed = λ c. c;
  }

module _ {R : Type 0} where
  unfoldable pub stop_polling : Session R → Session R
  stop_polling (m, (e, c)) =
      if e.running then with_controller (emit polling_changed) (stop (m, (e, c))) else (m, (e, c))

module _ {R : Type 0} (write : List ℕ → Session R → Session R) where
  unfoldable pub begin_polling : ℕ → List PollTarget → Bool → Session R → Option (Session R)
  begin_polling now targets favorites (m, (e, c)) = do
    (m1, (e1, c1)) ←
        set_targets (controller_wire write) now targets
          (m, (e, record c { favorites_active = favorites }))
    started ←
        start (controller_wire write) now (m1, (set_interval_ms now c1.poll_interval_ms e1, c1))
    some (with_controller (emit polling_changed) started)

  unfoldable pub start_polling : ℕ → RegisterType → ℕ → ℕ → Session R → Option (Session R)
  start_polling now type start_address quantity (m, (e, c)) =
      begin_polling now
        (record {
          unit_id = c.unit_id % 256;
          register_type = type;
          start_address = start_address % 65536;
          quantity = quantity % 65536;
        }
          ∷ [])
        false
        (
          m,
          (
            e,
            record c {
              poll_register_type = type;
              poll_start_address = start_address;
              poll_quantity = quantity;
            },
          ),
        )

  -- `given` is false for a null pointer.
  unfoldable pub start_polling_favorites : ℕ → Bool → Session R → Option (Session R)
  start_polling_favorites now given (m, (e, c)) =
      if given
      then begin_polling now (build_poll_targets (c.unit_id % 256) c.favorites) true (m, (e, c))
      else some (m, (e, c))
