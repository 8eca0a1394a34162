-- ===== src/System/Errors.antt =====
-- The switches on the kernel's errors make no failure a success.
use mojo.Prelude.{◌≡◌, refl, sym, false}
use mojo.System.{MojoResult, MxError, MxResult, error, value, Reply, answer, proceed, next, unless}
use mojo.System.Handles.{close_error, duplicate_error, rights_error}
use mojo.System.Pipes.{create_error, data_pipe_error}
use mojo.System.Buffers.{buffer_information_error}
use mojo.System.WaitSets.{WaitSetOptions, refuse_options, check_options, wait_set_create_error}
use mojo.System.Calls.{is_some, is_ok}
use mojo.Prelude.{arith, Option, none, some}

-- `translate` never makes a failure a success.
abbrev pub Fails : (MxError → MojoResult) → Type 0
Fails translate = (e : MxError) → is_ok (translate e) ≡ false

-- A reply with something stored exactly if its result is `ok`.
abbrev pub Agrees : {A : Type 0} → Reply A → Type 0
Agrees r = is_some r.out ≡ is_ok r.result

pub answer-Agrees :
    {A B S : Type 0} (translate : MxError → MojoResult) (store : A → B) (r : MxResult A × S)
    → Fails translate
    → Agrees (answer translate store r).0
unfolding is_some is_ok
answer-Agrees translate store (error e, s) fails = sym (fails e)
answer-Agrees translate store (value a, s) fails = refl

pub close_error-Fails : Fails close_error
unfolding close_error is_ok
close_error-Fails e = ground arith

pub duplicate_error-Fails : Fails duplicate_error
unfolding duplicate_error is_ok
duplicate_error-Fails e = ground arith

pub rights_error-Fails : Fails rights_error
unfolding rights_error is_ok
rights_error-Fails e = ground arith

pub create_error-Fails : Fails create_error
unfolding create_error is_ok
create_error-Fails e = ground arith

pub buffer_information_error-Fails : Fails buffer_information_error
unfolding buffer_information_error is_ok
buffer_information_error-Fails e = ground arith

pub wait_set_create_error-Fails : Fails wait_set_create_error
unfolding wait_set_create_error is_ok
wait_set_create_error-Fails e = ground arith

pub data_pipe_error-Fails :
    (other : MojoResult) → is_ok other ≡ false → Fails (data_pipe_error other)
unfolding data_pipe_error is_ok
data_pipe_error-Fails other h e = ground arith

proceed-Agrees :
    {A B S : Type 0} (out : Option A) (result : MojoResult) (s : S) (go : A → S → Reply B × S)
    → is_some out ≡ is_ok result
    → ((a : A) (s' : S) → Agrees (go a s').0)
    → Agrees (proceed out result s go).0
unfolding is_some is_ok
proceed-Agrees none result s go h after = h
proceed-Agrees (some a) result s go h after = after a s

pub next-Agrees :
    {A B S : Type 0} (x : Reply A × S) (go : A → S → Reply B × S)
    → Agrees x.0
    → ((a : A) (s : S) → Agrees (go a s).0)
    → Agrees (next x go).0
next-Agrees (r, s) go h after = proceed-Agrees r.out r.result s go h after

pub unless-Agrees :
    {A S : Type 0} (refusal : Option MojoResult) (s : S) (x : Reply A × S)
    → ((r : MojoResult) → refusal ≡ some r → is_ok r ≡ false)
    → Agrees x.0
    → Agrees (unless refusal s x).0
unfolding is_some is_ok
unless-Agrees none s x h agrees = agrees
unless-Agrees (some r) s x h agrees = sym (h r refl)

pub check_options-Fails :
    (o : Option WaitSetOptions) (r : MojoResult) → check_options o ≡ some r → is_ok r ≡ false
unfolding check_options refuse_options is_ok
check_options-Fails none r e = cc
check_options-Fails (some o) r e = ground arith
