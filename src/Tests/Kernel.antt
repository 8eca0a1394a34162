-- ===== src/Tests/Kernel.antt =====
-- A kernel for the tests of system/mojo.c: a table of handles and their rights.
use mojo.Prelude.{
  ℕ, suc, ◌≤◌, ◌≡◌, ◌≢◌, refl, sym, ap, ◌∙◌, true, false, Bool, Option, none, some, arith, ◌==◌,
  if◌then◌else◌, if_split, ltb, ◌%◌, ◌<◌,
}
use mathlib.Core.Option.{some-injective}
use mojo.System.{
  MxError, err_bad_handle, err_access_denied, err_bad_state, MxResult, MxStatus, error, value,
  Kernel,
}
use mojo.System.Rights.{HandleTable}

-- Handles from `bound` on are not valid.
pub record Handles : Type 0 where
  pub table : ℕ → Option ℕ
  pub bound : ℕ
  pub free : (h : ℕ) → bound ≤ h → table h ≡ none

abbrev pub set : (ℕ → Option ℕ) → ℕ → Option ℕ → ℕ → Option ℕ
set t h r g = if g == h then r else t g

pub add-free : (s : Handles) (r h : ℕ) → suc s.bound ≤ h → set s.table s.bound (some r) h ≡ none
add-free s r h le = let f = s.free h (omega arith) in ground arith

abbrev pub add : Handles → ℕ → Handles
add s r = record { table = set s.table s.bound (some r); bound = suc s.bound; free = add-free s r }

pub remove-free : (s : Handles) (g h : ℕ) → s.bound ≤ h → set s.table g none h ≡ none
remove-free s g h le = let f = s.free h le in ground arith

abbrev pub remove : Handles → ℕ → Handles
remove s g = record { table = set s.table g none; bound = s.bound; free = remove-free s g }

-- The rights are the bits below that of MX_RIGHT_SAME_RIGHTS.
abbrev pub rights : Option ℕ → Option ℕ
rights none = none
rights (some r) = some (r % 0x80000000)

pub rights-below : (o : Option ℕ) (r : ℕ) → rights o ≡ some r → r < 0x80000000
rights-below none r e = cc
rights-below (some a) r e = let z = some-injective (a % 0x80000000) r e in omega arith

abbrev pub get_info : Option ℕ → Handles → MxResult ℕ × Handles
get_info none s = (error err_bad_handle, s)
get_info (some r) s = (value (r % 0x80000000), s)

-- Only valid handles can be duplicated, with rights that there are.
abbrev pub duplicate : Option ℕ → ℕ → Handles → MxResult ℕ × Handles
duplicate none r s = (error err_bad_handle, s)
duplicate (some a) r s =
    if r == 0x80000000
    then (value s.bound, add s a)
    else if ltb r 0x80000000
    then (value s.bound, add s r)
    else (error err_access_denied, s)

-- Handle 7 cannot be closed.
abbrev pub close_handle : Option ℕ → Bool → ℕ → Handles → MxStatus × Handles
close_handle none _ h s = (error err_bad_handle, s)
close_handle (some _) true h s = (error err_bad_state, s)
close_handle (some _) false h s = (value tt, remove s h)

-- The calls that are not on handles succeed, and those that create a handle all yield 100.
abbrev pub table_kernel : Kernel
table_kernel = record {
  State = Handles;
  same_rights = 0x80000000;
  time_infinite = 0xffffffffffffffff;
  perm_read_write = 3;
  handle_close = λ h s. close_handle (s.table h) (h == 7) h s;
  handle_duplicate = λ h r s. duplicate (s.table h) r s;
  handle_get_info = λ h s. get_info (s.table h) s;
  current_time = λ s. (5000, s);
  handle_wait_one = λ h x d p s. (value tt, s);
  handle_wait_many = λ n h x d i p s. (value tt, s);
  message_pipe_create = λ f s. (value (100, 101), s);
  message_write = λ p b n h m f s. (value tt, s);
  message_read = λ p b n h m f s. (error err_bad_state, s);
  data_pipe_create = λ f e c s. (value (100, 101), s);
  data_pipe_write = λ p f n e s. (value n, s);
  data_pipe_begin_write = λ p f n b s. (value n, s);
  data_pipe_end_write = λ p n s. (value tt, s);
  data_pipe_read = λ p f n e s. (value n, s);
  data_pipe_begin_read = λ p f n b s. (value n, s);
  data_pipe_end_read = λ p n s. (value tt, s);
  vm_object_create = λ n s. (value 100, s);
  vm_object_get_size = λ h s. (value 4096, s);
  process_vm_map = λ p h o n b f s. (value tt, s);
  process_vm_unmap = λ p a n s. (value tt, s);
  wait_set_create = λ s. (value 100, s);
  wait_set_add = λ w h x c s. (value tt, s);
  wait_set_remove = λ w c s. (value tt, s);
  wait_set_wait = λ w d n r m s. (error err_access_denied, s);
}

pub info_tells :
    (o : Option ℕ) (r : ℕ) (s s' : Handles) → get_info o s ≡ (value r, s') → rights o ≡ some r
info_tells none r s s' e = cc
info_tells (some a) r s s' e = cc

pub info_same : (o : Option ℕ) (s : Handles) → (get_info o s).1 ≡ s
info_same none s = refl
info_same (some a) s = refl

-- What a call of `mx_handle_duplicate` with a new handle has done.
pub record Added (o : Option ℕ) (r n : ℕ) (s s' : Handles) : Type 0 where
  at : n ≡ s.bound
  with : ℕ
  after : s' ≡ add s with
  given : r ≢ 0x80000000 → rights (some with) ≡ some r
  same : r ≡ 0x80000000 → some with ≡ o

duplicate_adds :
    (o : Option ℕ) (r n : ℕ) (s s' : Handles) → duplicate o r s ≡ (value n, s') → Added o r n s s'
duplicate_adds none r n s s' e = cc
duplicate_adds (some a) r n s s' e =
    if_split (λ x. x ≡ (value n, s') → Added (some a) r n s s') (r == 0x80000000) _ _
      (λ c p. record {
        at = some-injective n s.bound cc;
        with = a;
        after = sym (ap (λ x. x.1) p);
        given = λ d. ground arith;
        same = λ _. refl;
      })
      (λ c.
        if_split (λ x. x ≡ (value n, s') → Added (some a) r n s s') (ltb r 0x80000000) _ _
          (λ l p. record {
            at = some-injective n s.bound cc;
            with = r;
            after = sym (ap (λ x. x.1) p);
            given = λ d. ap some (ground arith);
            same = λ d. ground arith;
          })
          (λ l p. cc))
      e

pub duplicate_same :
    (o : Option ℕ) (r : ℕ) (e : MxError) (s s' : Handles) → duplicate o r s ≡ (error e, s') → s' ≡ s
duplicate_same none r e s s' p = sym (ap (λ x. x.1) p)
duplicate_same (some a) r e s s' p =
    if_split (λ x. x ≡ (error e, s') → s' ≡ s) (r == 0x80000000) _ _ (λ c q. cc)
      (λ c.
        if_split (λ x. x ≡ (error e, s') → s' ≡ s) (ltb r 0x80000000) _ _ (λ l q. cc)
          (λ l q. sym (ap (λ x. x.1) q)))
      p

pub close_takes :
    (o : Option ℕ) (kept : Bool) (h : ℕ) (s s' : Handles)
    → close_handle o kept h s ≡ (value tt, s')
    → s' ≡ remove s h
close_takes none kept h s s' p = cc
close_takes (some a) true h s s' p = cc
close_takes (some a) false h s s' p = sym (ap (λ x. x.1) p)

pub close_same :
    (o : Option ℕ) (kept : Bool) (h : ℕ) (e : MxError) (s s' : Handles)
    → close_handle o kept h s ≡ (error e, s')
    → s' ≡ s
close_same none kept h e s s' p = sym (ap (λ x. x.1) p)
close_same (some a) true h e s s' p = sym (ap (λ x. x.1) p)
close_same (some a) false h e s s' p = cc

pub set-at : (t : ℕ → Option ℕ) (h : ℕ) (r : Option ℕ) → set t h r h ≡ r
set-at t h r = ground arith

pub set-other : (t : ℕ → Option ℕ) (h g : ℕ) (r : Option ℕ) → g ≢ h → set t h r g ≡ t g
set-other t h g r d = ground arith

table-new : (h r n : ℕ) (s s' : Handles) (a : Added (s.table h) r n s s') → s'.table n ≡ some a.with
table-new h r n s s' a =
    ap (λ x. x.table n) a.after
    ∙ ap (set s.table s.bound (some a.with)) a.at
    ∙ set-at s.table s.bound (some a.with)

pub duplicate_is_fresh :
    (h r n : ℕ) (s s' : Handles)
    → duplicate (s.table h) r s ≡ (value n, s')
    → rights (s.table n) ≡ none
duplicate_is_fresh h r n s s' e =
    let a = duplicate_adds (s.table h) r n s s' e in
    ap rights (ap s.table a.at ∙ s.free s.bound (omega arith))

pub duplicate_gives :
    (h r n : ℕ) (s s' : Handles)
    → duplicate (s.table h) r s ≡ (value n, s')
    → r ≢ 0x80000000
    → rights (s'.table n) ≡ some r
duplicate_gives h r n s s' e d =
    let a = duplicate_adds (s.table h) r n s s' e in ap rights (table-new h r n s s' a) ∙ a.given d

pub duplicate_copies :
    (h n : ℕ) (s s' : Handles)
    → duplicate (s.table h) 0x80000000 s ≡ (value n, s')
    → rights (s'.table n) ≡ rights (s.table h)
duplicate_copies h n s s' e =
    let a = duplicate_adds (s.table h) 0x80000000 n s s' e in
    ap rights (table-new h 0x80000000 n s s' a ∙ a.same refl)

pub duplicate_keeps_others :
    (h r n : ℕ) (s s' : Handles) (g : ℕ)
    → duplicate (s.table h) r s ≡ (value n, s')
    → g ≢ n
    → rights (s'.table g) ≡ rights (s.table g)
duplicate_keeps_others h r n s s' g e d =
    let a = duplicate_adds (s.table h) r n s s' e in
    ap rights (
      ap (λ x. x.table g) a.after
      ∙ set-other s.table s.bound g (some a.with) (λ q. d (q ∙ sym a.at)))

-- The tests' kernel keeps its table of handles as HandleTable says.
abbrev pub table_kernel_table : HandleTable table_kernel
table_kernel_table = record {
  rights_of = λ s h. rights (s.table h);
  info_rights = λ h r s s' e. info_tells (s.table h) r s s' e;
  info_keeps = λ h s g. ap (λ x. rights (x.table g)) (info_same (s.table h) s);
  rights_below = λ h r s e. rights-below (s.table h) r e;
  duplicate_fresh = duplicate_is_fresh;
  duplicate_given = duplicate_gives;
  duplicate_same = duplicate_copies;
  duplicate_keeps = duplicate_keeps_others;
  duplicate_fails =
      λ h r e s s' g p. ap (λ x. rights (x.table g)) (duplicate_same (s.table h) r e s s' p);
  close_removes = λ h s s' p.
      ap rights
        (ap (λ x. x.table h) (close_takes (s.table h) (h == 7) h s s' p) ∙ set-at s.table h none);
  close_keeps = λ h s s' g p d. ap rights (
      ap (λ x. x.table g) (close_takes (s.table h) (h == 7) h s s' p)
      ∙ set-other s.table h g none d);
  close_fails =
      λ h e s s' g p. ap (λ x. rights (x.table g)) (close_same (s.table h) (h == 7) h e s s' p);
}
