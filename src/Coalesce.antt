-- ===== src/Coalesce.antt =====
-- core/poll/ReadCoalescer.cpp with PollTarget.h, ReadRequestPlan.h and CoalescingOptions.h of the same
-- folder: poll targets are merged into contiguous requests of bounded size.
pub mod Sorting
pub mod Merging
pub mod Chunks
pub mod Slices
pub mod Coverage
mod Tests
use modbus_viewer.Prelude.{
  ℕ, zero, suc, ◌+◌, ◌-◌, ◌%◌, min, max, Bool, true, false, ◌&&◌, ◌||◌, not, List, [], ◌∷◌, ◌++◌,
  Option, none, some, ◌>>=◌, ◌==◌, ltb, leb, if◌then◌else◌,
}
use modbus_viewer.Model.{
  RegisterType, type_rank, type_eq, is_bit_register_type, max_bits_per_read_request,
  max_registers_per_read_request,
}

pub record PollTarget : Type 0 where
  pub unit_id : ℕ
  pub register_type : RegisterType
  pub start_address : ℕ
  pub quantity : ℕ

-- An `int`, so it does not wrap.
abbrev pub end_address_exclusive : PollTarget → ℕ
end_address_exclusive t = t.start_address + t.quantity

pub record CoveredTarget : Type 0 where
  pub target_index : ℕ
  pub offset_in_plan : ℕ
  pub offset_in_target : ℕ
  pub count : ℕ

pub record ReadRequestPlan : Type 0 where
  pub unit_id : ℕ
  pub register_type : RegisterType
  pub start_address : ℕ
  pub quantity : ℕ
  pub covered : List CoveredTarget

pub record CoalescingOptions : Type 0 where
  pub max_gap_to_bridge : ℕ
  pub max_bits_per_request : ℕ
  pub max_registers_per_request : ℕ

abbrev pub default_coalescing_options : CoalescingOptions
default_coalescing_options = record {
  max_gap_to_bridge = 8;
  max_bits_per_request = max_bits_per_read_request;
  max_registers_per_request = max_registers_per_read_request;
}

unfoldable pub max_count_for : CoalescingOptions → RegisterType → ℕ
max_count_for options type =
    if is_bit_register_type type
    then options.max_bits_per_request
    else options.max_registers_per_request

pub record GroupKey : Type 0 where
  pub unit_id : ℕ
  pub register_type : RegisterType

-- `operator<` and `operator==`.
abbrev pub key_lt : GroupKey → GroupKey → Bool
key_lt a b =
    if a.unit_id == b.unit_id
    then ltb (type_rank a.register_type) (type_rank b.register_type)
    else ltb a.unit_id b.unit_id

abbrev pub key_eq : GroupKey → GroupKey → Bool
key_eq a b = a.unit_id == b.unit_id && type_eq a.register_type b.register_type

abbrev pub key_of : PollTarget → GroupKey
key_of t = record { unit_id = t.unit_id; register_type = t.register_type }

-- An index into the targets, with the target that `targets.at(index)` reads there.
pub record Indexed : Type 0 where
  pub index : ℕ
  pub target : PollTarget

pub record MergedRun : Type 0 where
  pub start_address : ℕ
  pub end_address_exclusive : ℕ
  pub targets : List Indexed

pub new_run : Indexed → MergedRun
new_run e = record {
  start_address = e.target.start_address;
  end_address_exclusive = end_address_exclusive e.target;
  targets = e ∷ [];
}

pub extend_run : MergedRun → Indexed → MergedRun
extend_run run e = record run {
  end_address_exclusive = max run.end_address_exclusive (end_address_exclusive e.target);
  targets = run.targets ++ (e ∷ []);
}

-- `target.startAddress - end > maxGapToBridge`, on integers.
pub starts_new_run : ℕ → MergedRun → Indexed → Bool
starts_new_run max_gap run e = ltb (run.end_address_exclusive + max_gap) e.target.start_address

-- The rest of the loop, with the last run of the list at hand.
pub merge_from : ℕ → MergedRun → List Indexed → List MergedRun
merge_from max_gap run [] = run ∷ []
merge_from max_gap run (e ∷ es) = elim (starts_new_run max_gap run e) [
  | true ↦ run ∷ merge_from max_gap (new_run e) es
  | false ↦ merge_from max_gap (extend_run run e) es
]

pub merge_by_gap : List Indexed → ℕ → List MergedRun
merge_by_gap [] max_gap = []
merge_by_gap (e ∷ es) max_gap = merge_from max_gap (new_run e) es

pub overlap_start : Indexed → ℕ → ℕ
overlap_start e chunk_start = max e.target.start_address chunk_start

pub overlap_end : Indexed → ℕ → ℕ
overlap_end e chunk_end = min (end_address_exclusive e.target) chunk_end

pub slice : Indexed → ℕ → ℕ → CoveredTarget
slice e chunk_start chunk_end = record {
  target_index = e.index;
  offset_in_plan = overlap_start e chunk_start - chunk_start;
  offset_in_target = overlap_start e chunk_start - e.target.start_address;
  count = overlap_end e chunk_end - overlap_start e chunk_start;
}

pub covered_by : List Indexed → ℕ → ℕ → List CoveredTarget
covered_by [] chunk_start chunk_end = []
covered_by (e ∷ es) chunk_start chunk_end =
    if leb (overlap_end e chunk_end) (overlap_start e chunk_start)
    then covered_by es chunk_start chunk_end
    else slice e chunk_start chunk_end ∷ covered_by es chunk_start chunk_end

pub chunk_plan : MergedRun → GroupKey → ℕ → ℕ → ReadRequestPlan
chunk_plan run key chunk_start chunk_end = record {
  unit_id = key.unit_id;
  register_type = key.register_type;
  start_address = chunk_start % 65536;
  quantity = (chunk_end - chunk_start) % 65536;
  covered = covered_by run.targets chunk_start chunk_end;
}

-- The loop over `chunkStart`; `none` means that the fuel ran out.
pub plans_from : ℕ → MergedRun → GroupKey → ℕ → ℕ → Option (List ReadRequestPlan)
plans_from zero run key max_count chunk_start =
    if ltb chunk_start run.end_address_exclusive then none else some []
plans_from (suc fuel) run key max_count chunk_start =
    let chunk_end = min (chunk_start + max_count) run.end_address_exclusive in
    let rest : Option (List ReadRequestPlan) =
      (plans_from fuel run key max_count (chunk_start + max_count) >>= λ plans.
      some (chunk_plan run key chunk_start chunk_end ∷ plans)) in
    if ltb chunk_start run.end_address_exclusive then rest else some []

-- Each round moves `chunkStart` on by one at least, unless the ceiling is 0.
pub plans_for_run : MergedRun → GroupKey → ℕ → Option (List ReadRequestPlan)
plans_for_run run key max_count =
    plans_from (run.end_address_exclusive - run.start_address) run key max_count run.start_address

pub plans_for_runs : List MergedRun → GroupKey → ℕ → Option (List ReadRequestPlan)
plans_for_runs [] key max_count = some []
plans_for_runs (run ∷ runs) key max_count = do
  plans ← plans_for_run run key max_count
  others ← plans_for_runs runs key max_count
  some (plans ++ others)

pub contains_key : List GroupKey → GroupKey → Bool
contains_key [] key = false
contains_key (k ∷ ks) key = key_eq k key || contains_key ks key

unfoldable pub collect_keys : List PollTarget → List GroupKey → List GroupKey
collect_keys [] keys = keys
collect_keys (t ∷ ts) keys =
    collect_keys ts (if contains_key keys (key_of t) then keys else keys ++ (key_of t ∷ []))

-- `std::sort` over keys that are pairwise different.
pub insert_key : GroupKey → List GroupKey → List GroupKey
insert_key key [] = key ∷ []
insert_key key (k ∷ ks) = if key_lt k key then k ∷ insert_key key ks else key ∷ k ∷ ks

unfoldable pub sort_keys : List GroupKey → List GroupKey
sort_keys [] = []
sort_keys (k ∷ ks) = insert_key k (sort_keys ks)

-- The targets of one key, with their indices from `i` on.
pub indices_of : List PollTarget → ℕ → GroupKey → List Indexed
indices_of [] i key = []
indices_of (t ∷ ts) i key =
    if key_eq (key_of t) key
    then record { index = i; target = t } ∷ indices_of ts (i + 1) key
    else indices_of ts (i + 1) key

-- `std::stable_sort` by start address: an element goes before the later ones that are not smaller.
pub insert_index : Indexed → List Indexed → List Indexed
insert_index e [] = e ∷ []
insert_index e (x ∷ xs) =
    if ltb x.target.start_address e.target.start_address then x ∷ insert_index e xs else e ∷ x ∷ xs

pub sort_indices : List Indexed → List Indexed
sort_indices [] = []
sort_indices (e ∷ es) = insert_index e (sort_indices es)

pub plans_for_key : List PollTarget → CoalescingOptions → GroupKey → Option (List ReadRequestPlan)
plans_for_key targets options key =
    plans_for_runs
      (merge_by_gap (sort_indices (indices_of targets 0 key)) options.max_gap_to_bridge) key
      (max_count_for options key.register_type)

unfoldable pub plans_for_keys :
    List PollTarget → CoalescingOptions → List GroupKey → Option (List ReadRequestPlan)
plans_for_keys targets options [] = some []
plans_for_keys targets options (key ∷ keys) = do
  plans ← plans_for_key targets options key
  others ← plans_for_keys targets options keys
  some (plans ++ others)

-- `none` only where a ceiling of 0 makes the loop over chunks run for ever.
unfoldable pub coalesce : List PollTarget → CoalescingOptions → Option (List ReadRequestPlan)
coalesce targets options = plans_for_keys targets options (sort_keys (collect_keys targets []))
