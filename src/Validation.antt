-- ===== src/Validation.antt =====
-- Validation of encoded data: the functions *_Validate, validate_pointer, validate_handle,
-- validate_array_header and is_valid_size_for_version of public/c/lib/bindings (type_descriptor.c,
-- struct.c, array.c, union.c, map.c). Pointers are addresses, and `m` is the message in memory.
pub mod Safe
pub mod Pointer
pub mod Version
pub mod Spec
pub mod Struct
pub mod Array
pub mod Union
pub mod Map
pub mod Sound
use mojo.Prelude.{
  ℕ, zero, suc, ◌+◌, ◌-◌, ◌*◌, ◌/◌, ◌%◌, Bool, true, false, not, ◌&&◌, ◌||◌, Option, none, some,
  List, [], ◌∷◌, ltb, ◌==◌, if◌then◌else◌, uint32_max, sub32, length, get_elem?,
}
use mojo.Memory.{Memory, load32, load64}
use mojo.Descriptor.{
  ElemType, struct_ptr, map_ptr, array_ptr, union_ptr, union_inline, handle, interface, pod,
  StructVersion, StructEntry, StructDescriptor, UnionEntry, UnionDescriptor, ArrayDescriptor,
  Descriptors, is_pod,
}

-- The codes of mojo/bindings/validation.h, but for MOJOM_VALIDATION_ERROR_NONE.
pub data ValidationError : Type 0 where
  misaligned_object illegal_memory_range unexpected_struct_header : ValidationError
  unexpected_array_header illegal_handle unexpected_invalid_handle : ValidationError
  illegal_pointer unexpected_null_pointer message_header_invalid_flags : ValidationError
  message_header_missing_request_id message_header_unknown_method : ValidationError
  different_sized_arrays_in_map unexpected_null_union : ValidationError

-- `struct MojomValidationContext`.
pub record Context : Type 0 where
  pub next_handle_index : ℕ
  pub next_pointer : ℕ

-- How a validation ends: MOJOM_VALIDATION_ERROR_NONE or an error, with the context left behind;
-- a read outside the memory or a failed assertion; or no fuel left.
pub data Outcome : Type 0 where
  valid : Context → Outcome
  invalid : ValidationError → Context → Outcome
  fault : Outcome
  out_of_fuel : Outcome

-- `if (result != MOJOM_VALIDATION_ERROR_NONE) return result;` and what follows it.
abbrev pub and_then : Outcome → (Context → Outcome) → Outcome
and_then (valid c) k = k c
and_then (invalid e c) k = invalid e c
and_then fault k = fault
and_then out_of_fuel k = out_of_fuel

-- A load, and what is done with the value.
infixl 5 ◌>>=◌
abbrev pub ◌>>=◌ : {A : Type 0} → Option A → (A → Outcome) → Outcome
none >>= k = fault
some v >>= k = k v

-- `kEncodedHandleInvalid`.
abbrev pub encoded_handle_invalid : ℕ
encoded_handle_invalid = 0xffffffff

-- `sizeof(struct MojomUnionLayout)`.
abbrev pub union_size : ℕ
union_size = 16

unfoldable pub move_next_pointer : ℕ → ℕ → Context → Outcome
move_next_pointer pointer offset c =
    if not (offset == 0)
    then (if ltb (pointer + offset) c.next_pointer
        then invalid illegal_memory_range c
        else valid (record c { next_pointer = pointer + offset }))
    else valid c

unfoldable pub validate_pointer : Memory → ℕ → ℕ → Bool → Context → Outcome
unfolding move_next_pointer
validate_pointer m pointer max_offset is_nullable c = do
  offset ← load64 m pointer
  if ltb max_offset offset || ltb uint32_max offset
      then invalid illegal_pointer c
      else (and_then (move_next_pointer pointer offset c) λ c.
          if not (offset % 8 == 0)
          then invalid misaligned_object c
          else if not is_nullable && offset == 0
          then invalid unexpected_null_pointer c
          else valid c)

unfoldable pub validate_handle : ℕ → ℕ → Bool → Context → Outcome
validate_handle encoded_handle num_handles is_nullable c =
    if not is_nullable && encoded_handle == encoded_handle_invalid
    then invalid unexpected_invalid_handle c
    else if not (encoded_handle == encoded_handle_invalid)
    then (if not (ltb encoded_handle num_handles) || ltb encoded_handle c.next_handle_index
        then invalid illegal_handle c
        else valid (record c { next_handle_index = encoded_handle + 1 }))
    else valid c

-- The scan of is_valid_size_for_version, from index `i` down. `none` is a read past the table.
unfoldable pub seek_version : List StructVersion → ℕ → ℕ → Option StructVersion
seek_version versions version zero = get_elem? versions 0
seek_version versions version (suc i) = elim (get_elem? versions (suc i)) [
  | none ↦ none
  | some v ↦ elim (ltb version v.version) [
    | true ↦ seek_version versions version i
    | false ↦ some v
  ]
]

-- `versions[i]` is compared once more behind the scan. With no version the index wraps around.
unfoldable pub is_valid_size_for_version : ℕ → ℕ → List StructVersion → Option Bool
unfolding seek_version
is_valid_size_for_version num_bytes version versions =
    elim (seek_version versions version (sub32 (length versions) 1)) [
      | none ↦ none
      | some v ↦ some (
          if version == v.version
          then num_bytes == v.num_bytes
          else not (ltb num_bytes v.num_bytes))
    ]

-- `bits_to_bytes`.
unfoldable pub bits_to_bytes : ℕ → ℕ
bits_to_bytes bits = (bits + 7) / 8

-- A call of MojomType_DispatchValidate: element type, descriptor, nullable, address, bytes left.
abbrev pub Dispatch : Type 0
Dispatch = ElemType → ℕ → Bool → ℕ → ℕ → Context → Outcome

-- The loop of MojomStruct_Validate over the entries.
unfoldable pub validate_entries : Dispatch → ℕ → ℕ → ℕ → List StructEntry → Context → Outcome
validate_entries dispatch version in_struct in_struct_size [] c = valid c
validate_entries dispatch version in_struct in_struct_size (e ∷ es) c =
    elim (ltb version e.min_version) [
      | true ↦ validate_entries dispatch version in_struct in_struct_size es c
      | false ↦
          and_then
            (dispatch e.elem_type e.elem_descriptor e.nullable (in_struct + 8 + e.offset)
              (sub32 in_struct_size (8 + e.offset)) c)
            λ c. validate_entries dispatch version in_struct in_struct_size es c
    ]

-- `MojomStruct_Validate`.
unfoldable pub struct_validate : Memory → Dispatch → StructDescriptor → ℕ → ℕ → Context → Outcome
struct_validate m dispatch d in_struct in_struct_size c =
    if ltb in_struct_size 8 then invalid illegal_memory_range c else do
      num_bytes ← load32 m in_struct
      if ltb in_struct_size num_bytes then invalid illegal_memory_range c else do
        version ← load32 m (in_struct + 4)
        size_ok ← is_valid_size_for_version num_bytes version d.versions
        if not size_ok
            then invalid unexpected_struct_header c
            else if not (num_bytes % 8 == 0)
            then invalid misaligned_object c
            else validate_entries dispatch version in_struct in_struct_size d.entries
                (record c { next_pointer = in_struct + num_bytes })

-- `validate_array_header`.
unfoldable pub validate_array_header : Memory → ArrayDescriptor → ℕ → ℕ → Context → Outcome
unfolding bits_to_bytes
validate_array_header m d in_array in_buf_size c =
    if ltb in_buf_size 8 then invalid illegal_memory_range c else do
      num_bytes ← load32 m in_array
      if ltb num_bytes 8
          then invalid unexpected_array_header c
          else if ltb in_buf_size num_bytes
          then invalid illegal_memory_range c
          else do
            num_elements ← load32 m (in_array + 4)
            if not (d.num_elements == 0) && not (num_elements == d.num_elements)
                then invalid unexpected_array_header c
                else if ltb num_bytes (8 + bits_to_bytes (d.elem_num_bits * num_elements))
                then invalid unexpected_array_header c
                else valid c

-- `array_index_by_type`: `none` is its failing assertion.
unfoldable pub array_index_by_type : ℕ → ElemType → ℕ → Option ℕ
array_index_by_type array struct_ptr index = some (array + 8 + 8 * index)
array_index_by_type array map_ptr index = some (array + 8 + 8 * index)
array_index_by_type array array_ptr index = some (array + 8 + 8 * index)
array_index_by_type array union_inline index = some (array + 8 + 16 * index)
array_index_by_type array handle index = some (array + 8 + 4 * index)
array_index_by_type array interface index = some (array + 8 + 8 * index)
array_index_by_type array union_ptr index = none
array_index_by_type array pod index = none

-- The loop of MojomArray_Validate: `n` elements are left, from index `i` on.
unfoldable pub validate_elements : Dispatch → ArrayDescriptor → ℕ → ℕ → ℕ → ℕ → Context → Outcome
unfolding array_index_by_type
validate_elements dispatch d in_array in_array_size zero i c = valid c
validate_elements dispatch d in_array in_array_size (suc n) i c = do
  elem_data ← array_index_by_type in_array d.elem_type i
  and_then
      (dispatch d.elem_type d.elem_descriptor d.nullable elem_data
        (sub32 in_array_size (elem_data - in_array)) c)
      λ c. validate_elements dispatch d in_array in_array_size n (i + 1) c

-- `MojomArray_Validate`.
unfoldable pub array_validate : Memory → Dispatch → ArrayDescriptor → ℕ → ℕ → Context → Outcome
array_validate m dispatch d in_array in_array_size c =
    and_then (validate_array_header m d in_array in_array_size c) λ c. do
      num_bytes ← load32 m in_array
      let c' = record c { next_pointer = in_array + num_bytes }
      if is_pod d.elem_type then valid c' else do
        num_elements ← load32 m (in_array + 4)
        validate_elements dispatch d in_array in_array_size num_elements 0 c'

-- `MojomUnion_Validate`, from the given entries on.
unfoldable pub union_validate :
    Memory → Dispatch → Bool → ℕ → ℕ → List UnionEntry → Context → Outcome
union_validate m dispatch in_nullable in_union in_union_size [] c = valid c
union_validate m dispatch in_nullable in_union in_union_size (e ∷ es) c = do
  tag ← load32 m (in_union + 4)
  elim (tag == e.tag) [
    | false ↦ union_validate m dispatch in_nullable in_union in_union_size es c
    | true ↦ if is_pod e.elem_type then valid c else do
      size ← load32 m in_union
      if not in_nullable && not (size == union_size)
          then invalid unexpected_null_union c
          else dispatch e.elem_type e.elem_descriptor e.nullable (in_union + 8)
              (sub32 in_union_size 8) c
  ]

-- `MojomMap_Validate`.
unfoldable pub map_validate : Memory → ℕ → Context → Outcome
map_validate m map c = do
  keys_offset ← load64 m (map + 8)
  values_offset ← load64 m (map + 16)
  keys_num_elements ← load32 m (map + (8 + keys_offset) + 4)
  values_num_elements ← load32 m (map + (16 + values_offset) + 4)
  if not (keys_num_elements == values_num_elements)
      then invalid different_sized_arrays_in_map c
      else valid c

-- validate_pointer, and `body` at the pointee and the bytes left there unless the pointer is null.
unfoldable pub follow_pointer :
    Memory → ℕ → ℕ → Bool → (ℕ → ℕ → Context → Outcome) → Context → Outcome
follow_pointer m in_buf in_buf_size in_nullable body c =
    and_then (validate_pointer m in_buf in_buf_size in_nullable c) λ c. do
      offset ← load64 m in_buf
      if offset == 0 then valid c else body (in_buf + offset) (sub32 in_buf_size offset) c

-- The case MOJOM_TYPE_DESCRIPTOR_TYPE_UNION of the dispatch, at `union_data`.
unfoldable pub validate_union_data :
    Memory → Dispatch → UnionDescriptor → Bool → ℕ → ℕ → Context → Outcome
validate_union_data m dispatch d in_nullable union_data union_data_size c = do
  size ← load32 m union_data
  if size == 0
      then (if in_nullable then valid c else invalid unexpected_null_union c)
      else union_validate m dispatch in_nullable union_data union_data_size d.entries c

-- `MojomType_DispatchValidate`.
unfoldable pub dispatch_validate : Memory → Descriptors → ℕ → ℕ → Dispatch
dispatch_validate m t num_handles zero ty d in_nullable in_buf in_buf_size c = out_of_fuel
dispatch_validate m t num_handles (suc f) struct_ptr d in_nullable in_buf in_buf_size c =
    follow_pointer m in_buf in_buf_size in_nullable
      (struct_validate m (dispatch_validate m t num_handles f) (t.struct_at d)) c
dispatch_validate m t num_handles (suc f) map_ptr d in_nullable in_buf in_buf_size c =
    follow_pointer m in_buf in_buf_size in_nullable
      (λ a n c.
        and_then (struct_validate m (dispatch_validate m t num_handles f) (t.struct_at d) a n c)
          (map_validate m a))
      c
dispatch_validate m t num_handles (suc f) array_ptr d in_nullable in_buf in_buf_size c =
    follow_pointer m in_buf in_buf_size in_nullable
      (array_validate m (dispatch_validate m t num_handles f) (t.array_at d)) c
dispatch_validate m t num_handles (suc f) union_ptr d in_nullable in_buf in_buf_size c =
    follow_pointer m in_buf in_buf_size in_nullable
      (λ a n c.
        validate_union_data m (dispatch_validate m t num_handles f) (t.union_at d) in_nullable a n
          (record c { next_pointer = c.next_pointer + union_size }))
      c
dispatch_validate m t num_handles (suc f) union_inline d in_nullable in_buf in_buf_size c =
    validate_union_data m (dispatch_validate m t num_handles f) (t.union_at d) in_nullable in_buf
      in_buf_size c
dispatch_validate m t num_handles (suc f) handle d in_nullable in_buf in_buf_size c = do
  encoded_handle ← load32 m in_buf
  validate_handle encoded_handle num_handles in_nullable c
dispatch_validate m t num_handles (suc f) interface d in_nullable in_buf in_buf_size c = do
  encoded_handle ← load32 m in_buf
  validate_handle encoded_handle num_handles in_nullable c
dispatch_validate m t num_handles (suc f) pod d in_nullable in_buf in_buf_size c = valid c
