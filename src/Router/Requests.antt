-- ===== src/Router/Requests.antt =====
-- Requests and their responses.
use mojo.Router.Incoming.{handle_response, handle_incoming_message}
use mojo.Prelude.{
  ℕ, suc, ◌+◌, ◌<◌, ◌≡◌, refl, sym, ap, ◌∙◌, Bool, true, false, none, some, List, [], ◌∷◌, length,
  arith, if◌then◌else◌,
}
use mathlib.Core.Path.{subst}
use mojo.Prelude.Maps.{find, erase, assign, Ascends, assign-Ascends, find-assign, erase-assign}
use mojo.Prelude.Run.{Run, ok, ◌>>=◌, Yields, Yields-bind, Yields-any}
use mojo.Message.{expects_response, is_response}
use mojo.Router.{
  Message, Action, send, request, close_pipe, Outside, Connector, Router, reserve_request_id,
  run_validators_on_message, close_message_pipe, connector_accept, router_accept,
  accept_with_responder, router_close, perform, perform_all,
}

-- The request that `accept_with_responder` files.
pub record Filed (id responder : ℕ) (r : Router) (accepted : Bool) (after : Router) : Type 0 where
  pub responders :
      after.responders ≡ (if accepted then assign id responder r.responders else r.responders)
  pub next : after.next_request_id ≡ (reserve_request_id r.next_request_id).1

module _ (e : Outside) where
  open e use {State}

  filed :
      (m : Message) (responder : ℕ) (r : Router) (s : State)
      → Yields
          (λ x. Filed (reserve_request_id r.next_request_id).0 responder r x.0 x.1)
          (accept_with_responder e m responder r s)
  unfolding accept_with_responder
  filed m responder r s =
      Yields-bind (λ _. Unit {0}) _
        (connector_accept e (record m { request_id = (reserve_request_id r.next_request_id).0 })
          r.connector s)
        _ (Yields-any _) (λ x _. record { responders = refl; next = refl })

-- No responder is filed under `id`, and the next `k` requests take other ids.
record Unfiled (id k : ℕ) (r : Router) : Type 0 where
  keys : Ascends r.responders
  absent : find id r.responders ≡ none
  above : id < r.next_request_id
  room : r.next_request_id + k < 0x10000000000000000

reserve-plain :
    (n : ℕ)
    → 0 < n
    → n + 1 < 0x10000000000000000
    → ((reserve_request_id n).0 ≡ n) × ((reserve_request_id n).1 ≡ n + 1)
unfolding reserve_request_id
reserve-plain n some_id room = ground arith

reserve_next :
    (n id : ℕ)
    → (reserve_request_id n).0 ≡ id
    → id + 1 < 0x10000000000000000
    → (reserve_request_id n).1 ≡ id + 1
unfolding reserve_request_id
reserve_next n id same room = ground arith

Filed-Unfiled :
    (id k responder : ℕ) (r : Router) (accepted : Bool) (after : Router)
    → Filed (reserve_request_id r.next_request_id).0 responder r accepted after
    → Unfiled id (suc k) r
    → Unfiled id k after
Filed-Unfiled id k responder r true after f u =
    let above = u.above in
    let room = u.room in
    let n = reserve-plain r.next_request_id (omega arith) (omega arith) in
    let other =
      find-assign (reserve_request_id r.next_request_id).0 id responder r.responders u.keys in
    record {
      keys = rw f.responders (assign-Ascends _ responder r.responders u.keys);
      absent = rw (f.responders, other, n.0, u.absent) (ground arith);
      above = omega (arith, f.next, n.1);
      room = omega (arith, f.next, n.1);
    }
Filed-Unfiled id k responder r false after f u =
    let above = u.above in
    let room = u.room in
    let n = reserve-plain r.next_request_id (omega arith) (omega arith) in
    record {
      keys = rw f.responders u.keys;
      absent = rw f.responders u.absent;
      above = omega (arith, f.next, n.1);
      room = omega (arith, f.next, n.1);
    }

Unfiled-fewer :
    (id k : ℕ) (r : Router) (c : Connector)
    → Unfiled id (suc k) r
    → Unfiled id k (record r { connector = c })
Unfiled-fewer id k r c u = record {
  keys = u.keys;
  absent = u.absent;
  above = u.above;
  room = omega (arith, u.room);
}

module _ (e : Outside) (id : ℕ) where
  open e use {State}

  perform-Unfiled :
      (k : ℕ) (a : Action) (r : Router) (s : State)
      → Unfiled id (suc k) r
      → Yields (λ x. Unfiled id k x.0) (perform e a r s)
  unfolding perform router_accept router_close
  perform-Unfiled k (send m) r s u =
      Yields-bind (λ x. Unfiled id k x.1) _ (router_accept e m r s) _
        (Yields-bind (λ _. Unit {0}) _ (connector_accept e m r.connector s) _ (Yields-any _)
          (λ x _. Unfiled-fewer id k r x.1 u))
        (λ x w. w)
  perform-Unfiled k (request m responder) r s u =
      Yields-bind _ _ (accept_with_responder e m responder r s) _ (filed e m responder r s)
        (λ x f. Filed-Unfiled id k responder r x.0 x.1 f u)
  perform-Unfiled k close_pipe r s u = Unfiled-fewer id k r (close_message_pipe e r.connector s).0 u

  perform_all-Unfiled :
      (actions : List Action) (r : Router) (s : State)
      → Unfiled id (length actions) r
      → Yields (λ x. Unfiled id 0 x.0) (perform_all e actions r s)
  unfolding perform_all
  perform_all-Unfiled [] r s u = u
  perform_all-Unfiled (a ∷ actions) r s u =
      Yields-bind (λ x. Unfiled id (length actions) x.0) _ (perform e a r s) _
        (perform-Unfiled (length actions) a r s u) (λ x w. perform_all-Unfiled actions x.0 x.1 w)

-- What is done with the response `a` to a request whose responder is filed under its id.
abbrev pub answered :
    (e : Outside) (responder : ℕ) (a : Message) (r : Router) (t : e.State)
    → Run (Bool × Router × e.State)
answered e responder a r t =
    let (answer, t') = e.respond responder a t in
    (do (r', t'') ← perform_all e answer.actions r t'; ok (answer.accepted, r', t''))

responds :
    (e : Outside) (a : Message) (r : Router) (t : e.State)
    → run_validators_on_message e.validators a ≡ true
    → expects_response a.flags ≡ false
    → is_response a.flags ≡ true
    → handle_incoming_message e a r t ≡ handle_response e a r t
unfolding handle_incoming_message
responds e a r t passed kind kind' = rw (passed, kind, kind') refl

response_found :
    (e : Outside) (a : Message) (responder : ℕ) (r : Router) (t : e.State)
    → find a.request_id r.responders ≡ some responder
    → handle_response e a r t
      ≡ answered e responder a (record r { responders = erase a.request_id r.responders }) t
unfolding handle_response
response_found e a responder r t found = rw (handle_response, found) refl

response_unknown :
    (e : Outside) (a : Message) (r : Router) (t : e.State)
    → find a.request_id r.responders ≡ none
    → handle_response e a r t ≡ ok (false, r, t)
unfolding handle_response
response_unknown e a r t found = rw (handle_response, found) refl

-- Whatever answer comes with this id, it is refused, and changes nothing and calls nothing.
abbrev pub Refuses : (e : Outside) (a : Message) → Bool × Router × e.State → Type 0
Refuses e a (_, r, _) = (u : e.State) → handle_incoming_message e a r u ≡ ok (false, r, u)

answered-Refuses :
    (e : Outside) (responder : ℕ) (a : Message) (r : Router) (t : e.State)
    → Unfiled a.request_id (length (e.respond responder a t).0.actions) r
    → run_validators_on_message e.validators a ≡ true
    → expects_response a.flags ≡ false
    → is_response a.flags ≡ true
    → Yields (Refuses e a) (answered e responder a r t)
answered-Refuses e responder a r t u passed kind kind' =
    let (answer, t') = e.respond responder a t in
    Yields-bind (λ x. Unfiled a.request_id 0 x.0) (Refuses e a) (perform_all e answer.actions r t')
      _ (perform_all-Unfiled e a.request_id answer.actions r t' u)
      (λ x w u'. responds e a x.0 u' passed kind kind' ∙ response_unknown e a x.0 u' w.absent)

-- A request goes out under an id that no other responder has; then the first response with that id
-- that passes the validators is for its responder, with the responders as they were before the
-- request. In the router that this response leaves, once the responder has made its calls, requests
-- of its own among them, a second such response is refused, and changes nothing and calls nothing, if
-- the counter of the ids does not reach its end during these calls.
pub response-handled_once :
    (e : Outside) (m a : Message) (responder : ℕ) (r r' : Router) (s s' t : e.State)
    → Ascends r.responders
    → find a.request_id r.responders ≡ none
    → (reserve_request_id r.next_request_id).0 ≡ a.request_id
    → accept_with_responder e m responder r s ≡ ok (true, r', s')
    → run_validators_on_message e.validators a ≡ true
    → expects_response a.flags ≡ false
    → is_response a.flags ≡ true
    → a.request_id + length (e.respond responder a t).0.actions + 1 < 0x10000000000000000
    → (handle_incoming_message e a r' t
        ≡ answered e responder a (record r' { responders = r.responders }) t)
      × Yields (Refuses e a) (handle_incoming_message e a r' t)
response-handled_once e m a responder r r' s s' t ascends fresh same sent passed kind kind' room =
    let f : Filed (reserve_request_id r.next_request_id).0 responder r true r' =
      subst (Yields (λ x. Filed (reserve_request_id r.next_request_id).0 responder r x.0 x.1)) sent
        (filed e m responder r s) in
    let stored : r'.responders ≡ assign a.request_id responder r.responders =
      f.responders ∙ ap (λ i. assign i responder r.responders) same in
    let found : find a.request_id r'.responders ≡ some responder =
      rw (stored, find-assign a.request_id a.request_id responder r.responders ascends)
        (ground arith) in
    let restored : erase a.request_id r'.responders ≡ r.responders =
      rw stored (erase-assign a.request_id responder r.responders ascends fresh) in
    let first =
      responds e a r' t passed kind kind'
      ∙ response_found e a responder r' t found
      ∙ ap (λ rs. answered e responder a (record r' { responders = rs }) t) restored in
    let next = reserve_next r.next_request_id a.request_id same (omega arith) in
    (
      first,
      subst (Yields (Refuses e a)) (sym first) (
          answered-Refuses e responder a (record r' { responders = r.responders }) t
            (record {
              keys = ascends;
              absent = fresh;
              above = omega (arith, f.next);
              room = omega (arith, f.next);
            })
            passed kind kind'),
    )
