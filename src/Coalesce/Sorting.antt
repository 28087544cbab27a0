-- ===== src/Coalesce/Sorting.antt =====
-- The two sorts of core/poll/ReadCoalescer.cpp.
use modbus_viewer.Prelude.{
  ℕ, ◌≤◌, ◌≡◌, ap, inl, inr, true, Bool-cases, List, [], ◌∷◌, ◌++◌, ltb, arith, All, Any,
  Any-append_left, Any-append_right, some, get_elem?,
}
use modbus_viewer.Model.{type_eq→eq, type_eq_refl}
use modbus_viewer.Coalesce.{
  PollTarget, GroupKey, key_lt, key_eq, key_of, Indexed, contains_key, collect_keys, insert_key,
  sort_keys, insert_index, sort_indices,
}

-- Each start address is at most those behind it.
abbrev pub IsSorted : List Indexed → Type 0
IsSorted [] = Unit {0}
IsSorted (e ∷ es) = All (λ x. e.target.start_address ≤ x.target.start_address) es × IsSorted es

module _ (P : Indexed → Type 0) where
  insert_index-All : (e : Indexed) (xs : List Indexed) → P e → All P xs → All P (insert_index e xs)
  unfolding insert_index
  insert_index-All e [] p h = (p, tt)
  insert_index-All e (x ∷ xs) p h = ground (arith, insert_index-All e xs p h.1)

  pub sort_indices-All : (xs : List Indexed) → All P xs → All P (sort_indices xs)
  unfolding sort_indices
  sort_indices-All [] h = tt
  sort_indices-All (x ∷ xs) h = insert_index-All x (sort_indices xs) h.0 (sort_indices-All xs h.1)

  insert_index-Any_head : (e : Indexed) (xs : List Indexed) → P e → Any P (insert_index e xs)
  unfolding insert_index
  insert_index-Any_head e [] p = inl p
  insert_index-Any_head e (x ∷ xs) p =
      elim (Bool-cases (ltb x.target.start_address e.target.start_address)) [
        | inl less ↦ rw less (inr (insert_index-Any_head e xs p))
        | inr more ↦ rw more (inl p)
      ]

  insert_index-Any_tail : (e : Indexed) (xs : List Indexed) → Any P xs → Any P (insert_index e xs)
  unfolding insert_index
  insert_index-Any_tail e [] h = absurd h
  insert_index-Any_tail e (x ∷ xs) (inl h) =
      elim (Bool-cases (ltb x.target.start_address e.target.start_address)) [
        | inl less ↦ rw less (inl h)
        | inr more ↦ rw more (inr (inl h))
      ]
  insert_index-Any_tail e (x ∷ xs) (inr h) =
      elim (Bool-cases (ltb x.target.start_address e.target.start_address)) [
        | inl less ↦ rw less (inr (insert_index-Any_tail e xs h))
        | inr more ↦ rw more (inr (inr h))
      ]

  pub sort_indices-Any : (xs : List Indexed) → Any P xs → Any P (sort_indices xs)
  unfolding sort_indices
  sort_indices-Any [] h = absurd h
  sort_indices-Any (x ∷ xs) (inl h) = insert_index-Any_head x (sort_indices xs) h
  sort_indices-Any (x ∷ xs) (inr h) =
      insert_index-Any_tail x (sort_indices xs) (sort_indices-Any xs h)

above_trans :
    (n m : ℕ) (xs : List Indexed)
    → n ≤ m
    → All (λ x. m ≤ x.target.start_address) xs
    → All (λ x. n ≤ x.target.start_address) xs
above_trans n m [] h k = tt
above_trans n m (x ∷ xs) h k = (omega arith, above_trans n m xs h k.1)

insert_index-IsSorted :
    (e : Indexed) (xs : List Indexed) → IsSorted xs → IsSorted (insert_index e xs)
unfolding insert_index
insert_index-IsSorted e [] h = (tt, tt)
insert_index-IsSorted e (x ∷ xs) h =
    elim (Bool-cases (ltb x.target.start_address e.target.start_address)) [
      | inl less ↦ rw less (
        insert_index-All (λ y. x.target.start_address ≤ y.target.start_address) e xs (ground arith)
            h.0,
        insert_index-IsSorted e xs h.1,
      )
      | inr more ↦
          let below : e.target.start_address ≤ x.target.start_address = ground arith in
          rw more ((below, above_trans _ _ xs below h.0), h)
    ]

pub sort_indices-IsSorted : (xs : List Indexed) → IsSorted (sort_indices xs)
unfolding sort_indices
sort_indices-IsSorted [] = tt
sort_indices-IsSorted (x ∷ xs) =
    insert_index-IsSorted x (sort_indices xs) (sort_indices-IsSorted xs)

-- Keys.
pub key_eq→eq : (a b : GroupKey) → key_eq a b ≡ true → a ≡ b
key_eq→eq a b h = ground (arith, type_eq→eq a.register_type b.register_type)

pub key_eq_refl : (a : GroupKey) → key_eq a a ≡ true
key_eq_refl a = ground (arith, type_eq_refl a.register_type)

contains_key→Any :
    (keys : List GroupKey) (key : GroupKey) → contains_key keys key ≡ true → Any (λ k. k ≡ key) keys
unfolding contains_key
contains_key→Any [] key h = cc
contains_key→Any (k ∷ ks) key h = elim (Bool-cases (key_eq k key)) [
  | inl same ↦ inl (key_eq→eq k key same)
  | inr other ↦ inr (contains_key→Any ks key (ground arith))
]

collect_keys_keep :
    (P : GroupKey → Type 0) (ts : List PollTarget) (keys : List GroupKey)
    → Any P keys
    → Any P (collect_keys ts keys)
unfolding collect_keys
collect_keys_keep P [] keys h = h
collect_keys_keep P (t ∷ ts) keys h = elim (Bool-cases (contains_key keys (key_of t))) [
  | inl old ↦ rw old (collect_keys_keep P ts keys h)
  | inr new ↦ rw new (collect_keys_keep P ts (keys ++ (key_of t ∷ [])) (Any-append_left P keys _ h))
]

-- The key of every target is collected.
pub collect_keys_all :
    (ts : List PollTarget) (keys : List GroupKey) (t : PollTarget)
    → Any (λ x. x ≡ t) ts
    → Any (λ k. k ≡ key_of t) (collect_keys ts keys)
unfolding collect_keys
collect_keys_all [] keys t h = absurd h
collect_keys_all (x ∷ ts) keys t (inl e) = elim (Bool-cases (contains_key keys (key_of x))) [
  | inl old ↦
      rw old
        (collect_keys_keep _ ts keys (rw (ap key_of e) at (contains_key→Any keys (key_of x) old)))
  | inr new ↦ rw new (
      collect_keys_keep _ ts (keys ++ (key_of x ∷ []))
        (Any-append_right _ keys _ (inl (ap key_of e))))
]
collect_keys_all (x ∷ ts) keys t (inr h) = collect_keys_all ts _ t h

insert_key-Any_head :
    (P : GroupKey → Type 0) (key : GroupKey) (ks : List GroupKey)
    → P key
    → Any P (insert_key key ks)
unfolding insert_key
insert_key-Any_head P key [] p = inl p
insert_key-Any_head P key (k ∷ ks) p = elim (Bool-cases (key_lt k key)) [
  | inl less ↦ rw less (inr (insert_key-Any_head P key ks p))
  | inr more ↦ rw more (inl p)
]

insert_key-Any_tail :
    (P : GroupKey → Type 0) (key : GroupKey) (ks : List GroupKey)
    → Any P ks
    → Any P (insert_key key ks)
unfolding insert_key
insert_key-Any_tail P key [] h = absurd h
insert_key-Any_tail P key (k ∷ ks) (inl h) = elim (Bool-cases (key_lt k key)) [
  | inl less ↦ rw less (inl h)
  | inr more ↦ rw more (inr (inl h))
]
insert_key-Any_tail P key (k ∷ ks) (inr h) = elim (Bool-cases (key_lt k key)) [
  | inl less ↦ rw less (inr (insert_key-Any_tail P key ks h))
  | inr more ↦ rw more (inr (inr h))
]

pub sort_keys-Any : (P : GroupKey → Type 0) (ks : List GroupKey) → Any P ks → Any P (sort_keys ks)
unfolding sort_keys
sort_keys-Any P [] h = absurd h
sort_keys-Any P (k ∷ ks) (inl h) = insert_key-Any_head P k (sort_keys ks) h
sort_keys-Any P (k ∷ ks) (inr h) = insert_key-Any_tail P k (sort_keys ks) (sort_keys-Any P ks h)

-- What an entry of a group says: it is the target at its index, and has the key of the group.
pub record IsEntry (targets : List PollTarget) (key : GroupKey) (e : Indexed) : Type 0 where
  pub found : get_elem? targets e.index ≡ some e.target
  pub grouped : key_of e.target ≡ key
