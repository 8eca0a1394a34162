-- ===== src/Tests/Agreeing.antt =====
-- The validators of the C++ bindings at small inputs.
use mojo.Prelude.{◌≡◌, ◌↔◌, ◌+◌, inr, refl, List, [], ◌∷◌, arith}
use mojo.Prelude.Regions.{Ascending}
use mojo.Memory.{Memory, load32, in_bounds, word32}
use mojo.Validation.{Context, encoded_handle_invalid}
use mojo.Message.{
  accept, validate_header, check_version, check_exclusive, expects_response, is_response,
}
use mojo.Bindings.{
  BoundsChecker, add_address, internal_is_valid_range, claim_memory, claim_handle,
  new_bounds_checker, validate_header_of,
}
use mojo.Bindings.Builder.{data_size, align}
use mojo.Bindings.Accepted.{build, response, Built, build-Built}
use mojo.Bindings.Pointers.{Coded, encode_pointer_into, encode_pointer_into-Coded}
use mojo.Bindings.Claims.{
  Claim, memory_claim, handle_claim, claim_all, collect_region, collect_index, Rising,
  claim_all-Ascending,
}
use mojo.Prelude.Run.{ok, Returns}
use mojo.Bindings.Handles.{encode_handle_into, encode_all, decode_all, decode_all-encode_all}
use mojo.Bindings.Agree.{validators_agree}
use mojo.Tests.Samples.{memory_of}

-- 64 bytes at 4096, and three handles.
abbrev bounds : BoundsChecker
bounds = record { data_begin = 4096; data_end = 4160; handle_begin = 0; handle_end = 3 }

bounds_made : new_bounds_checker 4096 64 3 ≡ bounds
unfolding new_bounds_checker add_address
bounds_made = refl

-- The second region overlaps the first, and handle 1 comes after handle 2.
abbrev wishes : List Claim
wishes =
    memory_claim 4096 16
    ∷ memory_claim 4104 16
    ∷ handle_claim 0
    ∷ handle_claim 2
    ∷ handle_claim 1
    ∷ handle_claim encoded_handle_invalid
    ∷ memory_claim 4112 48
    ∷ memory_claim 4160 8
    ∷ []

granted : claim_all wishes bounds ≡ ((4096, 16) ∷ (4112, 48) ∷ [], 0 ∷ 2 ∷ [])
unfolding claim_all collect_region collect_index claim_memory claim_handle internal_is_valid_range
    add_address
granted = refl

claim_all-Ascending_example :
    Ascending 4096 4160 (claim_all wishes bounds).0 × Rising 0 3 (claim_all wishes bounds).1
claim_all-Ascending_example =
    claim_all-Ascending bounds wishes
      (record {
        memory = omega arith;
        handles = omega arith;
        top = omega arith;
        many = omega arith;
      })
      (
        (omega arith, omega arith),
        (
          (omega arith, omega arith),
          (
            omega arith,
            (
              omega arith,
              (
                omega arith,
                (omega arith, ((omega arith, omega arith), ((omega arith, omega arith), tt))),
              ),
            ),
          ),
        ),
      )

abbrev context : Context
context = record { next_handle_index = 0; next_pointer = 4096 }

-- A request, number 5, of version 1.
abbrev request : Memory
request = memory_of 1000 (
    24 ∷ 0 ∷ 0 ∷ 0 ∷ 1 ∷ 0 ∷ 0 ∷ 0 ∷ 7 ∷ 0 ∷ 0 ∷ 0 ∷ 1 ∷ 0 ∷ 0 ∷ 0 ∷ 5 ∷ 0 ∷ 0 ∷ 0 ∷ 0 ∷ 0 ∷ 0 ∷ 0
    ∷ [])

validators_agree_example :
    (validate_header_of request 1000 24 ≡ accept) ↔ (validate_header request 1000 24 ≡ accept)
validators_agree_example =
    validators_agree request 1000 24 (omega arith) (omega arith) (omega arith) (omega arith)

request_accepted : validate_header request 1000 24 ≡ accept
unfolding validate_header check_version check_exclusive expects_response is_response load32
    in_bounds word32
request_accepted = refl

-- Handle 0 is none.
coded_handles :
    encode_all (11 ∷ 0 ∷ 12 ∷ []) (10 ∷ [])
    ≡ (1 ∷ encoded_handle_invalid ∷ 2 ∷ [], 10 ∷ 11 ∷ 12 ∷ [])
unfolding encode_all encode_handle_into
coded_handles = refl

decode_all-encode_all_example :
    decode_all
      (encode_all (11 ∷ 0 ∷ 12 ∷ []) (10 ∷ [])).0
      (encode_all (11 ∷ 0 ∷ 12 ∷ []) (10 ∷ [])).1
    ≡ ok (11 ∷ 0 ∷ 12 ∷ [], 10 ∷ 0 ∷ 0 ∷ [])
decode_all-encode_all_example = decode_all-encode_all (11 ∷ 0 ∷ 12 ∷ []) (10 ∷ []) (omega arith)

-- A response to request 5, without payload, in the memory of the request above.
build-Built_example :
    Returns
      (Built request 1000 0 (omega arith) (omega arith) (omega arith) (omega arith) (response 5))
      (build (response 5) request 1000 7 0)
unfolding data_size align
build-Built_example =
    build-Built request 1000 0 (omega arith) (omega arith) (omega arith) (omega arith) (response 5)
      7 (omega arith) (omega arith)

encode_pointer_into-Coded_example : Coded 1016 1000 (encode_pointer_into 1016 1000 request)
encode_pointer_into-Coded_example =
    encode_pointer_into-Coded 1016 1000 request (omega arith) (omega arith) (omega arith)
      (inr (omega arith, omega arith, omega arith))

-- A message with a payload of 4 GiB less its header has no room even for that.
cut_size : data_size (24 + 0xffffffe8) ≡ 0
unfolding data_size align
cut_size = refl
