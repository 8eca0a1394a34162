-- ===== src/Descriptor/WellFormed.antt =====
-- What the bindings generator promises of the descriptors that it emits
-- (public/c/include/mojo/bindings/internal/type_descriptor.h), stated over the tables alone.
use mojo.Prelude.{
  ℕ, ◌+◌, ◌*◌, ◌≤◌, ◌<◌, ◌≡◌, List, [], ◌∷◌, false, some, word, length, get_elem?, All,
}
use mojo.Descriptor.{
  ElemType, struct_ptr, map_ptr, array_ptr, union_ptr, union_inline, handle, interface, pod,
  StructVersion, StructEntry, StructDescriptor, UnionEntry, UnionDescriptor, ArrayDescriptor,
  Descriptors,
}

-- The bytes that an element of the type takes in place: `sizeof` of `union MojomPointer`,
-- `struct MojomUnionLayout`, `MojoHandle` and `struct MojomInterfaceData`.
abbrev pub width : ElemType → ℕ
width struct_ptr = 8
width map_ptr = 8
width array_ptr = 8
width union_ptr = 8
width union_inline = 16
width handle = 4
width interface = 8
width pod = 0

-- A type whose elements stand in a struct or an array.
abbrev pub IsPlain : ElemType → Type 0
IsPlain union_ptr = ⊥
IsPlain _ = Unit

-- A type whose elements stand in a union, pointers to a further union left aside.
abbrev pub IsUnionField : ElemType → Type 0
IsUnionField union_ptr = ⊥
IsUnionField union_inline = ⊥
IsUnionField _ = Unit

-- A map is a struct of two arrays, its keys and its values.
abbrev pub map_entry : ℕ → ℕ → StructEntry
map_entry offset d = record {
  elem_type = array_ptr;
  elem_descriptor = d;
  offset = offset;
  min_version = 0;
  nullable = false;
}

abbrev pub IsMap : StructDescriptor → Type 0
IsMap d = (keys : ℕ) × (values : ℕ) × (d.entries ≡ map_entry 0 keys ∷ map_entry 8 values ∷ [])

-- The descriptor of a map is a map's.
abbrev pub RefersWell : Descriptors → ElemType → ℕ → Type 0
RefersWell t map_ptr d = IsMap (t.struct_at d)
RefersWell t _ d = Unit

-- The entry came with one of the versions, and each version that has it is long enough for it.
pub record EntryFits (t : Descriptors) (versions : List StructVersion) (e : StructEntry)
    : Type 0 where
  pub plain : IsPlain e.elem_type
  pub refers : RefersWell t e.elem_type e.elem_descriptor
  pub since :
      (i : ℕ) × (v : StructVersion) × (get_elem? versions i ≡ some v) × (v.version ≡ e.min_version)
  pub fits :
      (i : ℕ) (v : StructVersion)
      → get_elem? versions i ≡ some v
      → e.min_version ≤ v.version
      → 8 + e.offset + width e.elem_type ≤ v.num_bytes

-- The versions ascend, and each is at least as long as a header.
pub record IsStruct (t : Descriptors) (d : StructDescriptor) : Type 0 where
  pub some_version : 0 < length d.versions
  pub few_versions : length d.versions < word
  pub has_header : (i : ℕ) (v : StructVersion) → get_elem? d.versions i ≡ some v → 8 ≤ v.num_bytes
  pub ascending :
      (i j : ℕ) (v w : StructVersion)
      → get_elem? d.versions i ≡ some v
      → get_elem? d.versions j ≡ some w
      → i ≤ j
      → v.version ≤ w.version
  pub entries_fit : All (EntryFits t d.versions) d.entries

abbrev pub IsUnion : Descriptors → UnionDescriptor → Type 0
IsUnion t d =
    All (λ (e : UnionEntry). IsUnionField e.elem_type × RefersWell t e.elem_type e.elem_descriptor)
      d.entries

pub record IsArray (t : Descriptors) (d : ArrayDescriptor) : Type 0 where
  pub plain : IsPlain d.elem_type
  pub refers : RefersWell t d.elem_type d.elem_descriptor
  pub wide : 8 * width d.elem_type ≤ d.elem_num_bits

pub record IsWellFormed (t : Descriptors) : Type 0 where
  pub structs : (d : ℕ) → IsStruct t (t.struct_at d)
  pub unions : (d : ℕ) → IsUnion t (t.union_at d)
  pub arrays : (d : ℕ) → IsArray t (t.array_at d)
