-- ===== src/Copy/Grows.antt =====
-- A copy takes memory from the buffer only, and gives none back.
use mojo.Prelude.{
  ℕ, ◌≤◌, ◌≡◌, Bool, true, false, Option, none, some, arith, refl, ◌∙◌, ◌&&◌, ◌==◌, if◌then◌else◌,
}
use mojo.Memory.{Memory, load32, store64, memcpy, in_bounds}
use mojo.Buffer.{Buffer, allocate}
use mojo.Buffer.Allocate.{IsBuffer, Allocated, allocate-Allocated}
use mojo.Prelude.Run.{ok, fault, out_of_fuel, ◌>>=◌, access, assert}
use mojo.Copy.{Heap, Copied, if_copied, address, copy_object}

-- The buffer of `h'` is well-formed, is the same piece of memory as that of `h`, and has no more room;
-- the memory is the same region.
pub record Grows (h h' : Heap) : Type 0 where
  pub well : IsBuffer h'.buffer
  pub buf : h'.buffer.buf ≡ h.buffer.buf
  pub buf_size : h'.buffer.buf_size ≡ h.buffer.buf_size
  pub used : h.buffer.num_bytes_used ≤ h'.buffer.num_bytes_used
  pub base : h'.memory.base ≡ h.memory.base
  pub size : h'.memory.size ≡ h.memory.size

-- A copy that returns, with either result, has done no more than this.
abbrev pub GrowsTo : Heap → Copied → Type 0
GrowsTo h (ok (b, h')) = Grows h h'
GrowsTo h fault = Unit {0}
GrowsTo h out_of_fuel = Unit {0}

abbrev pub GrowsAlways : (Heap → Copied) → Type 0
GrowsAlways go = (h : Heap) → IsBuffer h.buffer → GrowsTo h (go h)

pub Grows-refl : (h : Heap) → IsBuffer h.buffer → Grows h h
Grows-refl h w = record {
  well = w;
  buf = refl;
  buf_size = refl;
  used = omega arith;
  base = refl;
  size = refl;
}

-- What grows further from a heap that has grown has grown from the first.
pub GrowsTo-after : (h h' : Heap) (r : Copied) → Grows h h' → GrowsTo h' r → GrowsTo h r
GrowsTo-after h h' (ok (b, h'')) g g' = ground arith
GrowsTo-after h h' fault g g' = tt
GrowsTo-after h h' out_of_fuel g g' = tt

-- A sequence of copies.
pub GrowsTo-then :
    (h : Heap) (r : Copied) (go : Heap → Copied)
    → GrowsTo h r
    → GrowsAlways go
    → GrowsTo h (r >>= (λ x. if_copied x go))
GrowsTo-then h (ok (true, h')) go g all = GrowsTo-after h h' (go h') g (all h' g.well)
GrowsTo-then h (ok (false, h')) go g all = g
GrowsTo-then h fault go g all = tt
GrowsTo-then h out_of_fuel go g all = tt

-- Reading memory and failed assertions add nothing.
pub GrowsTo-access :
    {A : Type 0} (h : Heap) (o : Option A) (go : A → Copied)
    → ((a : A) → GrowsTo h (go a))
    → GrowsTo h (access o >>= go)
GrowsTo-access h none go all = tt
GrowsTo-access h (some a) go all = all a

pub GrowsTo-assert : (h : Heap) (b : Bool) (r : Copied) → GrowsTo h r → GrowsTo h (assert b r)
GrowsTo-assert h true r g = g
GrowsTo-assert h false r g = tt

-- A write, under the test of its bounds.
GrowsTo-write :
    (h : Heap) (b : Bool) (m : Memory) (go : Memory → Copied)
    → GrowsTo h (go m)
    → GrowsTo h (access (if b then some m else none) >>= go)
GrowsTo-write h true m go g = g
GrowsTo-write h false m go g = tt

pub GrowsTo-if :
    (h : Heap) (b : Bool) (r s : Copied)
    → GrowsTo h r
    → GrowsTo h s
    → GrowsTo h (if b then r else s)
GrowsTo-if h true r s g g' = g
GrowsTo-if h false r s g g' = g'

Allocated-Grows :
    (h : Heap) (n : ℕ) (p : Option ℕ) (b : Buffer) (m : Memory)
    → IsBuffer h.buffer
    → Allocated h.buffer n p b
    → m.base ≡ h.memory.base
    → m.size ≡ h.memory.size
    → Grows h (record { memory = m; buffer = b })
Allocated-Grows h n none b m w (same, full) base size = ground arith
Allocated-Grows h n (some a) b m w (at, used, buf, buf_size, well) base size = record {
  well = well;
  buf = buf;
  buf_size = buf_size;
  used = omega arith;
  base = base;
  size = size;
}

pub allocate-Grows :
    (h : Heap) (n : ℕ) (m : Memory)
    → IsBuffer h.buffer
    → m.base ≡ h.memory.base
    → m.size ≡ h.memory.size
    → Grows h (record { memory = m; buffer = (allocate h.buffer n).1 })
allocate-Grows h n m w base size =
    Allocated-Grows h n (allocate h.buffer n).0 (allocate h.buffer n).1 m w
      (allocate-Allocated h.buffer n w) base size

-- Memory that is written to is the same region still.
abbrev pub Region : Memory → Memory → Type 0
Region m m' = (m'.base ≡ m.base) × (m'.size ≡ m.size)

pub GrowsTo-store64 :
    (h : Heap) (m : Memory) (a v : ℕ) (go : Memory → Copied)
    → ((m' : Memory) → Region m m' → GrowsTo h (go m'))
    → GrowsTo h (access (store64 m a v) >>= go)
unfolding store64
GrowsTo-store64 h m a v go all = GrowsTo-write h (in_bounds m a 8) _ go (all _ (refl, refl))

pub GrowsTo-memcpy :
    (h : Heap) (m : Memory) (dst src n : ℕ) (go : Memory → Copied)
    → ((m' : Memory) → Region m m' → GrowsTo h (go m'))
    → GrowsTo h (access (memcpy m dst src n) >>= go)
unfolding memcpy
GrowsTo-memcpy h m dst src n go all =
    GrowsTo-write h (in_bounds m dst n && in_bounds m src n) _ go (all _ (refl, refl))

-- The region is that of the heap before.
pub written-Grows :
    (h : Heap) (m : Memory)
    → IsBuffer h.buffer
    → Region h.memory m
    → Grows h (record h { memory = m })
written-Grows h m w (base, size) = record {
  well = w;
  buf = refl;
  buf_size = refl;
  used = omega arith;
  base = base;
  size = size;
}

pub copy_object-Grows : (in_object out_object : ℕ) → GrowsAlways (copy_object in_object out_object)
unfolding copy_object
copy_object-Grows in_object out_object h w = GrowsTo-access h (load32 h.memory in_object) _ (λ n.
    GrowsTo-store64 h h.memory out_object (address (allocate h.buffer n).0) _ (λ m r.
      GrowsTo-if h (address (allocate h.buffer n).0 == 0) _ _ (allocate-Grows h n m w r.0 r.1) (
        GrowsTo-access h (load32 m in_object) _ (λ k.
          GrowsTo-memcpy h m (address (allocate h.buffer n).0) in_object k _
            (λ m' r'. allocate-Grows h n m' w (r'.0 ∙ r.0) (r'.1 ∙ r.1))))))

-- The tests of the loops.
pub GrowsTo-test :
    (h : Heap) (b : Bool) (r s : Copied)
    → GrowsTo h r
    → GrowsTo h s
    → GrowsTo h (elim b as (λ _. Copied) [ true ↦ r | false ↦ s ])
GrowsTo-test h true r s g g' = g
GrowsTo-test h false r s g g' = g'
