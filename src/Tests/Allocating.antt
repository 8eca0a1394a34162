-- ===== src/Tests/Allocating.antt =====
-- The allocator and MojomArray_New at small inputs.
use mojo.Prelude.{◌≡◌, refl, [], ◌∷◌, arith}
use mojo.Memory.{Memory}
use mojo.Buffer.{Buffer, allocate, allocate_all, new_array}
use mojo.Prelude.Regions.{Ascending}
use mojo.Buffer.Allocate.{IsBuffer, Allocated, allocate-Allocated, allocate_all-Ascending}
use mojo.Buffer.Arrays.{Made, new_array-Made}
use mojo.Tests.Samples.{memory_of}

-- 24 bytes at address 2000, of which eight are taken.
abbrev buffer : Buffer
buffer = record { buf = 2000; buf_size = 24; num_bytes_used = 8 }

buffer-IsBuffer : IsBuffer buffer
buffer-IsBuffer = omega arith

-- The request for ten bytes takes sixteen, and the next one finds no room.
two_requests : (allocate_all buffer (10 ∷ 1 ∷ [])).0 ≡ (2008, 10) ∷ []
unfolding allocate_all
two_requests = refl

allocate-Allocated_example : Allocated buffer 10 (allocate buffer 10).0 (allocate buffer 10).1
allocate-Allocated_example = allocate-Allocated buffer 10 buffer-IsBuffer

allocate_all-Ascending_example : Ascending 2008 2024 (allocate_all buffer (3 ∷ 20 ∷ 1 ∷ [])).0
allocate_all-Ascending_example = allocate_all-Ascending buffer (3 ∷ 20 ∷ 1 ∷ []) buffer-IsBuffer

abbrev zeros : Memory
zeros = memory_of 2000 (
    0 ∷ 0 ∷ 0 ∷ 0 ∷ 0 ∷ 0 ∷ 0 ∷ 0 ∷ 0 ∷ 0 ∷ 0 ∷ 0 ∷ 0 ∷ 0 ∷ 0 ∷ 0 ∷ 0 ∷ 0 ∷ 0 ∷ 0 ∷ 0 ∷ 0 ∷ 0 ∷ 0
    ∷ [])

new_array-Made_example : Made zeros buffer 2 14 (new_array zeros buffer 2 3)
new_array-Made_example =
    new_array-Made zeros buffer 2 (omega arith) buffer-IsBuffer
      (record { low = omega arith; high = omega arith }) 3
