-- ===== src/Poll/Generations.antt =====
-- The correlation ids of core/poll/PollEngine.cpp, and what becomes of them when the targets change.
use modbus_viewer.Prelude.{ℕ, ◌+◌, ◌*◌, ◌/◌, ◌%◌, ◌^◌, ◌<◌, ◌≡◌, refl, ◌==◌, arith, ◌∙◌}
use modbus_viewer.Prelude.Bits.{bit_or_shifted, bit_and_ones}
use modbus_viewer.Poll.Engine.{
  PollEngine, make_correlation_id, is_current_generation, plan_index_of,
}

pub id_value :
    (e : PollEngine) (i : ℕ) → i < 2 ^ 32 → make_correlation_id e i ≡ e.generation * 2 ^ 32 + i
unfolding make_correlation_id
id_value e i h =
    let kept : i % 2 ^ 32 ≡ i = omega arith in rw kept (bit_or_shifted 32 e.generation i h)

-- The correlation id that an engine makes for a plan gives back the plan's index, and belongs to the
-- current generation of an engine exactly if that engine has the same generation, for generations and
-- indices below 2^32.
pub correlation_id_lem :
    (sender receiver : PollEngine) (plan_index : ℕ)
    → plan_index < 2 ^ 32
    → sender.generation < 2 ^ 32
    → (plan_index_of (make_correlation_id sender plan_index) ≡ plan_index)
      × (is_current_generation receiver (make_correlation_id sender plan_index)
          ≡ (sender.generation == receiver.generation))
unfolding plan_index_of is_current_generation
correlation_id_lem sender receiver plan_index hi hg =
    let value = id_value sender plan_index hi in
    let upper : (sender.generation * 2 ^ 32 + plan_index) / 2 ^ 32 % 2 ^ 32 ≡ sender.generation =
      omega arith in
    (
      rw value ((bit_and_ones 32 (sender.generation * 2 ^ 32 + plan_index)).1 ∙ omega arith),
      rw (value, upper) refl,
    )
