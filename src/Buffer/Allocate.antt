-- ===== src/Buffer/Allocate.antt =====
-- What the allocator promises.
use mojo.Prelude.{
  ℕ, ◌+◌, ◌%◌, ◌≤◌, ◌<◌, ◌≡◌, Option, none, some, List, [], ◌∷◌, arith, word, round_to_8,
  round_to_8_bounds, ap,
}
use mojo.Prelude.Regions.{Ascending, Ascending-weaken}
use mojo.Buffer.{Buffer, allocate, collect, allocate_all}

-- The counter is a multiple of eight, and lies in the buffer, whose size is a `uint32_t`.
pub record IsBuffer (b : Buffer) : Type 0 where
  pub within : b.num_bytes_used ≤ b.buf_size
  pub small : b.buf_size < word
  pub aligned : b.num_bytes_used % 8 ≡ 0

pub round_to_8_aligned : (n : ℕ) → round_to_8 n % 8 ≡ 0
unfolding round_to_8
round_to_8_aligned n = omega arith

-- An allocation of `n` bytes: a failed one changes nothing and there was no room; one that
-- succeeds takes the next bytes, rounded up, and nothing wraps.
abbrev pub Allocated : Buffer → ℕ → Option ℕ → Buffer → Type 0
Allocated b n none b' = (b' ≡ b) × (b.buf_size < b.num_bytes_used + round_to_8 n)
Allocated b n (some p) b' =
    (p ≡ b.buf + b.num_bytes_used)
    × (b'.num_bytes_used ≡ b.num_bytes_used + round_to_8 n)
    × (b'.buf ≡ b.buf)
    × (b'.buf_size ≡ b.buf_size)
    × IsBuffer b'

-- In a well-formed buffer MojomBuffer_Allocate fails only for want of room, and then changes nothing;
-- else it hands out the first free address, advances the counter by the size rounded up with no
-- wrap, leaves the rest of the buffer's fields, and keeps the buffer well-formed.
pub allocate-Allocated :
    (b : Buffer) (n : ℕ) → IsBuffer b → Allocated b n (allocate b n).0 (allocate b n).1
unfolding allocate
allocate-Allocated b n ok = ground (arith, round_to_8_aligned n)

pub allocate-IsBuffer : (b : Buffer) (n : ℕ) → IsBuffer b → IsBuffer (allocate b n).1
unfolding allocate
allocate-IsBuffer b n ok = ground (arith, round_to_8_aligned n)

collect-Ascending :
    (b b' : Buffer) (n high : ℕ) (p : Option ℕ) (rs : List (ℕ × ℕ))
    → Allocated b n p b'
    → Ascending (b'.buf + b'.num_bytes_used) high rs
    → Ascending (b.buf + b.num_bytes_used) high (collect p n rs)
unfolding collect
collect-Ascending b b' n high none rs (same, full) r = rw (← same) r
collect-Ascending b b' n high (some a) rs (at, used, buf, size, ok) r = (
  omega arith,
  Ascending-weaken (a + n) (b'.buf + b'.num_bytes_used) high rs (omega (arith, round_to_8_bounds n))
      r,
)

Allocated-within :
    (b b' : Buffer) (n : ℕ) (p : Option ℕ)
    → Allocated b n p b'
    → (b'.buf ≡ b.buf) × (b'.buf_size ≡ b.buf_size)
Allocated-within b b' n none (same, full) = (ap (λ x. x.buf) same, ap (λ x. x.buf_size) same)
Allocated-within b b' n (some a) (at, used, buf, size, ok) = (buf, size)

-- In a well-formed buffer, however many requests are made one after the other, and whichever of them
-- fail, the regions that are given out ascend without overlap in the part that was free.
pub allocate_all-Ascending :
    (b : Buffer) (ns : List ℕ)
    → IsBuffer b
    → Ascending (b.buf + b.num_bytes_used) (b.buf + b.buf_size) (allocate_all b ns).0
unfolding allocate_all
allocate_all-Ascending b [] ok = omega (arith, ok.within)
allocate_all-Ascending b (n ∷ ns) ok =
    let b' = (allocate b n).1 in
    let step = allocate-Allocated b n ok in
    let (buf, size) = Allocated-within b b' n (allocate b n).0 step in
    let rest = allocate_all-Ascending b' ns (allocate-IsBuffer b n ok) in
    let end : b'.buf + b'.buf_size ≡ b.buf + b.buf_size = omega arith in
    collect-Ascending b b' n (b.buf + b.buf_size) (allocate b n).0 (allocate_all b' ns).0 step
      (rw end at rest)
