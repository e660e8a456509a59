-- ===== src/Gap/Connection.antt =====
-- server/main/ble/CConnection.hpp and .cpp.
use ubiquitous_chainsaw.Base.{
  ℕ, ◌%◌, ◌^◌, ◌<◌, ◌≡◌, Bool, true, false, Option, none, some, ◌==◌, if◌then◌else◌, leb, arith,
  Outcome, ok, stop, undefined, assert, ◌>>=◌, ◌>>◌,
}
use ubiquitous_chainsaw.Nimble.{NimbleErrorCode, success, no_connection}
use ubiquitous_chainsaw.Gap.Host.{Host, DropCode, completed}

-- The constructor of `ConnectionHandle`; a handle is its `m_ID`.
unfoldable pub connection_handle : ℕ → Outcome ℕ
connection_handle id = do assert (leb id 65535); ok (id % 2 ^ 16)

-- `operator==` and `operator!=` of `ConnectionHandle`.
unfoldable pub handle_eq : ℕ → ℕ → Bool
handle_eq lhs rhs = lhs == rhs

unfoldable pub handle_ne : ℕ → ℕ → Bool
handle_ne lhs rhs = lhs == rhs

-- A `CConnection` is its `m_Handle`.
abbrev pub CConnection : Type 0
CConnection = Option ℕ

-- `operator bool`
abbrev pub is_connected : CConnection → Bool
is_connected none = false
is_connected (some handle) = true

-- `operator==` of `CConnection`: that of `std::optional`.
unfoldable pub connection_eq : CConnection → CConnection → Bool
connection_eq none none = true
connection_eq (some lhs) (some rhs) = handle_eq lhs rhs
connection_eq none (some rhs) = false
connection_eq (some lhs) none = false

-- The move constructor: the new connection, and what is left of the other.
unfoldable pub moved : CConnection → CConnection × CConnection
moved other = (other, none)

-- The move assignment, of two connections that are not one object; the old handle is not dropped.
unfoldable pub move_assign : CConnection → CConnection → CConnection × CConnection
move_assign self other = (other, none)

-- The code of the error that `drop` returns.
unfoldable pub drop_code : NimbleErrorCode → Option NimbleErrorCode
drop_code success = none
drop_code no_connection = some no_connection
drop_code _ = some no_connection

unfoldable pub drop :
    {S : Type 0} → Host S → CConnection → DropCode → S → Outcome (Option NimbleErrorCode × S)
drop host none reason s = stop undefined
drop host (some handle) reason s =
    ok (drop_code (host.terminate handle reason s).0, (host.terminate handle reason s).1)

-- The state that a call of `drop` leaves, where its error is only logged.
unfoldable pub logged : {S : Type 0} → Option NimbleErrorCode × S → Outcome S
logged (error, s) = ok s

-- The destructor.
unfoldable pub destroy : {S : Type 0} → Host S → CConnection → S → Outcome S
destroy host none s = ok s
destroy host (some handle) s =
    if host.conn_find handle s then drop host (some handle) completed s >>= logged else ok s

pub connection_handle-ok : (id : ℕ) → id < 2 ^ 16 → connection_handle id ≡ ok id
unfolding connection_handle
connection_handle-ok id h = ground arith
