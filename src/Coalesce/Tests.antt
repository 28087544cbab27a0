-- ===== src/Coalesce/Tests.antt =====
-- The coalescer on the cases of tests/test_read_coalescer.cpp, and its theorems at such inputs.
use modbus_viewer.Prelude.{◌≡◌, refl, List, [], ◌∷◌, some, arith, Any, All, ℕ}
use modbus_viewer.Model.{holding_register, is_bit_register_type}
use modbus_viewer.Coalesce.{
  PollTarget, ReadRequestPlan, default_coalescing_options, max_count_for, coalesce, collect_keys,
  contains_key, sort_keys, insert_key, indices_of, sort_indices, insert_index, merge_by_gap,
  merge_from, new_run, extend_run, starts_new_run, plans_for_keys, plans_for_key, plans_for_runs,
  plans_for_run, plans_from, chunk_plan, covered_by, slice, overlap_start, overlap_end,
}
use modbus_viewer.Coalesce.Slices.{IsRequest, IsValidOptions, coalesce-IsRequest}
use modbus_viewer.Coalesce.Coverage.{Reads, coalesce-Reads}

abbrev holding : ℕ → ℕ → PollTarget
holding start quantity = record {
  unit_id = 1;
  register_type = holding_register;
  start_address = start;
  quantity = quantity;
}

-- The second target lies behind a gap of three, which is bridged; the third is too far.
abbrev scattered : List PollTarget
scattered = holding 13 2 ∷ holding 0 10 ∷ holding 100 1 ∷ []

abbrev scattered_plans : List ReadRequestPlan
scattered_plans =
    record {
      unit_id = 1;
      register_type = holding_register;
      start_address = 0;
      quantity = 15;
      covered =
          record { target_index = 1; offset_in_plan = 0; offset_in_target = 0; count = 10 }
          ∷ record { target_index = 0; offset_in_plan = 13; offset_in_target = 0; count = 2 }
          ∷ [];
    }
    ∷ record {
      unit_id = 1;
      register_type = holding_register;
      start_address = 100;
      quantity = 1;
      covered =
          record { target_index = 2; offset_in_plan = 0; offset_in_target = 0; count = 1 } ∷ [];
    }
    ∷ []

scattered_runs : coalesce scattered default_coalescing_options ≡ some scattered_plans
unfolding coalesce collect_keys contains_key sort_keys insert_key indices_of sort_indices
    insert_index merge_by_gap merge_from new_run extend_run starts_new_run plans_for_keys
    plans_for_key plans_for_runs plans_for_run plans_from chunk_plan covered_by slice overlap_start
    overlap_end max_count_for is_bit_register_type
scattered_runs = refl

default_options-IsValidOptions : IsValidOptions default_coalescing_options
default_options-IsValidOptions = record {
  bits_pos = omega arith;
  bits_fit = omega arith;
  registers_pos = omega arith;
  registers_fit = omega arith;
}

coalesce-IsRequest_example :
    (plans : List ReadRequestPlan) × (coalesce scattered default_coalescing_options ≡ some plans)
    × All (IsRequest scattered default_coalescing_options) plans
coalesce-IsRequest_example =
    coalesce-IsRequest scattered default_coalescing_options default_options-IsValidOptions
      (omega arith)

coalesce-Reads_example : Any (Reads 0 1) scattered_plans
coalesce-Reads_example =
    coalesce-Reads scattered default_coalescing_options scattered_plans 0 1 (holding 13 2)
      scattered_runs refl (omega arith)
