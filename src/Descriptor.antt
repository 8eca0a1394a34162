-- ===== src/Descriptor.antt =====
-- The type descriptors of public/c/include/mojo/bindings/internal/type_descriptor.h. They are
-- constants that the bindings generator emits, and they refer to one another by pointer, in
-- cycles where a mojom type is recursive; here `elem_descriptor` is an index into a table.
pub mod WellFormed
use mojo.Prelude.{ℕ, List, [], ◌∷◌, Bool, true, false}

-- `enum MojomTypeDescriptorType`.
pub data ElemType : Type 0 where
  struct_ptr map_ptr array_ptr union_ptr union_inline handle interface pod : ElemType

-- `MojomType_IsPointer`.
unfoldable pub is_pointer : ElemType → Bool
is_pointer struct_ptr = true
is_pointer map_ptr = true
is_pointer array_ptr = true
is_pointer union_ptr = true
is_pointer _ = false

unfoldable pub is_pod : ElemType → Bool
is_pod pod = true
is_pod _ = false

unfoldable pub is_union : ElemType → Bool
is_union union_inline = true
is_union _ = false

-- `struct MojomTypeDescriptorStructVersion`.
pub record StructVersion : Type 0 where
  pub version : ℕ
  pub num_bytes : ℕ

-- `struct MojomTypeDescriptorStructEntry`.
pub record StructEntry : Type 0 where
  pub elem_type : ElemType
  pub elem_descriptor : ℕ
  pub offset : ℕ
  pub min_version : ℕ
  pub nullable : Bool

-- `struct MojomTypeDescriptorStruct`; `num_versions` and `num_entries` are the lengths.
pub record StructDescriptor : Type 0 where
  pub versions : List StructVersion
  pub entries : List StructEntry

-- `struct MojomTypeDescriptorUnionEntry`.
pub record UnionEntry : Type 0 where
  pub elem_type : ElemType
  pub elem_descriptor : ℕ
  pub tag : ℕ
  pub nullable : Bool

-- `struct MojomTypeDescriptorUnion`; `num_entries` is the length.
pub record UnionDescriptor : Type 0 where
  pub num_fields : ℕ
  pub entries : List UnionEntry

-- `struct MojomTypeDescriptorArray`.
pub record ArrayDescriptor : Type 0 where
  pub elem_type : ElemType
  pub elem_descriptor : ℕ
  pub num_elements : ℕ
  pub elem_num_bits : ℕ
  pub nullable : Bool

-- What the casts of `elem_descriptor` lead to. The element type decides which cast is made.
pub record Descriptors : Type 0 where
  pub struct_at : ℕ → StructDescriptor
  pub union_at : ℕ → UnionDescriptor
  pub array_at : ℕ → ArrayDescriptor

-- `g_mojom_string_type_description`.
abbrev pub string_descriptor : ArrayDescriptor
string_descriptor = record {
  elem_type = pod;
  elem_descriptor = 0;
  num_elements = 0;
  elem_num_bits = 8;
  nullable = false;
}
