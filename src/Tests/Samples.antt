-- ===== src/Tests/Samples.antt =====
-- A mojom struct with a string and a handle that may be null, its descriptors and its encoding.
use mojo.Prelude.{
  ℕ, zero, suc, ◌-◌, ◌≡◌, refl, List, [], ◌∷◌, ◌++◌, some, true, false, arith, get_elem?, length,
}
use mojo.Memory.{Memory}
use mojo.Descriptor.{
  array_ptr, handle, StructVersion, StructEntry, StructDescriptor, UnionDescriptor, Descriptors,
  string_descriptor,
}
use mojo.Descriptor.WellFormed.{IsStruct, IsWellFormed}

abbrev pub byte_at : List ℕ → ℕ → ℕ
byte_at [] i = 0
byte_at (x ∷ xs) zero = x
byte_at (x ∷ xs) (suc i) = byte_at xs i

abbrev pub memory_of : ℕ → List ℕ → Memory
memory_of base bytes = record {
  base = base;
  size = length bytes;
  byte = λ a. byte_at bytes (a - base);
}

abbrev pub version_0 : StructVersion
version_0 = record { version = 0; num_bytes = 24 }

abbrev pub name_entry : StructEntry
name_entry = record {
  elem_type = array_ptr;
  elem_descriptor = 0;
  offset = 0;
  min_version = 0;
  nullable = false;
}

abbrev pub pipe_entry : StructEntry
pipe_entry = record {
  elem_type = handle;
  elem_descriptor = 0;
  offset = 8;
  min_version = 0;
  nullable = true;
}

abbrev pub named_pipe : StructDescriptor
named_pipe = record { versions = version_0 ∷ []; entries = name_entry ∷ pipe_entry ∷ [] }

abbrev pub pipe_or_none : UnionDescriptor
pipe_or_none = record {
  num_fields = 2;
  entries = record { elem_type = handle; elem_descriptor = 0; tag = 1; nullable = false } ∷ [];
}

abbrev pub tables : Descriptors
tables = record {
  struct_at = λ d. named_pipe;
  union_at = λ d. pipe_or_none;
  array_at = λ d. string_descriptor;
}

only_version : (i : ℕ) (v : StructVersion) → get_elem? (version_0 ∷ []) i ≡ some v → v ≡ version_0
only_version zero v h = cc
only_version (suc i) v h = cc

named_pipe-IsStruct : IsStruct tables named_pipe
named_pipe-IsStruct = record {
  some_version = omega arith;
  few_versions = omega arith;
  has_header = λ i v h. rw (only_version i v h) (omega arith);
  ascending = λ i j v w h k l. rw (only_version i v h, only_version j w k) (omega arith);
  entries_fit = (
    record {
      plain = tt;
      refers = tt;
      since = (0, version_0, refl, refl);
      fits = λ i v h l. rw (only_version i v h) (omega arith);
    },
    (
      record {
        plain = tt;
        refers = tt;
        since = (0, version_0, refl, refl);
        fits = λ i v h l. rw (only_version i v h) (omega arith);
      },
      tt,
    ),
  );
}

pub tables-IsWellFormed : IsWellFormed tables
tables-IsWellFormed = record {
  structs = λ d. named_pipe-IsStruct;
  unions = λ d. ((tt, tt), tt);
  arrays = λ d. record { plain = tt; refers = tt; wide = omega arith };
}

abbrev pub struct_bytes : List ℕ
struct_bytes =
    24 ∷ 0 ∷ 0 ∷ 0 ∷ 0 ∷ 0 ∷ 0 ∷ 0 ∷ 16 ∷ 0 ∷ 0 ∷ 0 ∷ 0 ∷ 0 ∷ 0 ∷ 0 ∷ 0 ∷ 0 ∷ 0 ∷ 0 ∷ 0 ∷ 0 ∷ 0 ∷ 0
    ∷ []

abbrev pub name_bytes : List ℕ
name_bytes = 11 ∷ 0 ∷ 0 ∷ 0 ∷ 3 ∷ 0 ∷ 0 ∷ 0 ∷ b'a' ∷ b'b' ∷ b'c' ∷ 0 ∷ 0 ∷ 0 ∷ 0 ∷ 0 ∷ []

-- The message in 40 bytes from address 1000 on.
abbrev pub message : Memory
message = memory_of 1000 (struct_bytes ++ name_bytes)
