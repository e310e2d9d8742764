-- ===== src/Auth.antt =====
-- The stack of authenticators: `auth_stack_add_client`, `auth_add_client`, `auth_new_client`,
-- `__handle_auth_client` and `auth_stack_get_anonymous_acl` of src/auth.c.
--
-- One client is followed through the stack. What an authenticator's thread finds when it comes to the
-- client is part of the stack's element: the length of its queue, whether the client is still
-- connected, and what the backend answers. The reference counts and the locks are not modelled.
pub mod Granted
use icecast_server.Prelude.{
  ◌==◌, ℕ, Bool, true, false, not, ◌&&◌, List, [], ◌∷◌, ◌++◌, Option, none, some, Bytes, codes,
  str_eq, ltb, get_or, if◌then◌else◌,
}
use icecast_server.Acl.{Acl}

-- `auth_result`
pub data AuthResult : Type 0 where
  undefined auth_ok failed released forbidden no_match user_added user_exists user_deleted :
      AuthResult

pub record Auth : Type 0 where
  pub id : ℕ
  -- `auth->type`
  pub auth_type : Bytes
  -- the method filter
  pub method : List Bool
  pub acl : Acl
  pub role : Option Bytes
  pub pending_count : ℕ
  -- `is_client_connected` when the authenticator comes to the client
  pub connected : Bool
  -- what `authenticate_client` returns, if the backend has one
  pub answer : Option AuthResult

pub record AuthClient : Type 0 where
  pub acl : Option Acl
  pub role : Option Bytes
  -- `client->auth`
  pub auth : Option ℕ
  pub respcode : ℕ

-- What becomes of the client: an error is sent, or `on_result` gets a result.
pub data Answer : Type 0 where
  busy : Answer
  result : AuthResult → Answer

unfoldable pub allows_method : ℕ → Auth → Bool
allows_method req_type a = get_or a.method req_type false

abbrev pub is_ok : AuthResult → Bool
is_ok auth_ok = true
is_ok _ = false

-- `auth_new_client`: the client's state and the result.
unfoldable pub ask_backend : Option AuthResult → AuthClient → AuthClient × AuthResult
ask_backend none c = (c, failed)
ask_backend (some r) c = (if is_ok r then c else record c { auth = none }, r)

unfoldable pub new_client : Auth → AuthClient → AuthClient × AuthResult
unfolding ask_backend
new_client a c =
    if a.connected
    then ask_backend a.answer c
    else (record c { respcode = 400; auth = none }, failed)

or_else : Option Bytes → Option Bytes → Option Bytes
or_else none other = other
or_else (some v) other = some v

-- `__handle_auth_client`: the ACL and the role that a result brings.
unfoldable pub grant : AuthResult → Auth → AuthClient → AuthClient
unfolding or_else
grant r a c = if is_ok r then record c { acl = some a.acl; role = or_else a.role c.role } else c

-- On a result that is not a match the client goes on, and any other ends its way.
unfoldable pub after_result :
    (AuthClient → AuthClient × Answer) → AuthResult → AuthClient → AuthClient × Answer
after_result next no_match c = next c
after_result next undefined c = (c, result undefined)
after_result next auth_ok c = (c, result auth_ok)
after_result next failed c = (c, result failed)
after_result next released c = (c, result released)
after_result next forbidden c = (c, result forbidden)
after_result next user_added c = (c, result user_added)
after_result next user_exists c = (c, result user_exists)
after_result next user_deleted c = (c, result user_deleted)

unfoldable pub handle : (AuthClient → AuthClient × Answer) → Auth → AuthClient → AuthClient × Answer
unfolding new_client grant after_result
handle next a c =
    let (c', r) = new_client a (record c { auth = some a.id }) in after_result next r (grant r a c')

-- `auth_add_client` at each element of the stack, and what `__move_client_forward_in_auth_stack` does
-- at its end. A stack has at least one element where a client enters it.
unfoldable pub add_client : ℕ → List Auth → AuthClient → AuthClient × Answer
unfolding allows_method handle
add_client req_type [] c = (c, result no_match)
add_client req_type (a ∷ rest) c =
    let go_on = add_client req_type rest in
    if ltb 100 a.pending_count
    then (c, busy)
    else if not (allows_method req_type a)
    then go_on c
    else handle go_on a c

-- `auth_stack_push` and `auth_stack_append`, on what a stack holds.
unfoldable pub stack_push : List Auth → Auth → List Auth
stack_push stack a = stack ++ a ∷ []

unfoldable pub stack_append : List Auth → List Auth → List Auth
stack_append stack tail = stack ++ tail

-- `auth_stack_getbyid`
unfoldable pub get_by_id : List Auth → ℕ → Option Auth
get_by_id [] id = none
get_by_id (a ∷ rest) id = let other = get_by_id rest id in if a.id == id then some a else other

-- The loop of `auth_stack_get_anonymous_acl`, for a method in range.
unfoldable pub get_anonymous_acl : List Auth → ℕ → Option Acl
unfolding allows_method str_eq
get_anonymous_acl [] method = none
get_anonymous_acl (a ∷ rest) method =
    let other = get_anonymous_acl rest method in
    if allows_method method a && str_eq a.auth_type (codes "anonymous") then some a.acl else other
