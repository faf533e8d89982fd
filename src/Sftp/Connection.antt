-- ===== src/Sftp/Connection.antt =====
-- The connection of the SFTP adapter: `__enter__`, `__exit__`, and a `with` block. What paramiko does is
-- the record `Server`.
use document_classifier_week.Prelude.{
  ◌≡◌, refl, Bool, true, false, ◌&&◌, Option, none, some, if◌then◌else◌,
}

-- a call of paramiko: done, one of its two exceptions, or any other
pub data Attempt : Type 0 where
  done authentication_error ssh_error other_error : Attempt

pub record Server : Type 0 where
  -- `Transport((host, port))` does not raise
  pub reachable : Bool
  pub connect : Attempt
  pub from_transport : Attempt

pub data Problem : Type 0 where
  sftp_connection_error other_error body_error : Problem

-- The fields of the adapter that are not `None`, and whether the transport that it opened is open.
pub record Adapter : Type 0 where
  pub has_transport : Bool
  pub has_sftp : Bool
  pub is_open : Bool

-- `SFTPAdapter(…)`
abbrev pub new_adapter : Adapter
new_adapter = record { has_transport = false; has_sftp = false; is_open = false }

-- `self._transport.close()`
abbrev close_transport : Adapter → Adapter
close_transport a = record a { is_open = false }

-- `AuthenticationException` is an `SSHException`, the only one that is caught here.
abbrev open_session : Attempt → Adapter → Option Problem × Adapter
open_session Attempt.done a = (none, record a { has_sftp = true })
open_session Attempt.authentication_error a = (some sftp_connection_error, close_transport a)
open_session Attempt.ssh_error a = (some sftp_connection_error, close_transport a)
open_session Attempt.other_error a = (some Problem.other_error, a)

abbrev log_in : Attempt → Attempt → Adapter → Option Problem × Adapter
log_in Attempt.done session a = open_session session a
log_in Attempt.authentication_error session a = (some sftp_connection_error, close_transport a)
log_in Attempt.ssh_error session a = (some sftp_connection_error, close_transport a)
log_in Attempt.other_error session a = (some Problem.other_error, a)

-- `__enter__`
unfoldable pub enter : Server → Adapter → Option Problem × Adapter
enter server a =
    if server.reachable
    then log_in server.connect server.from_transport
        (record a { has_transport = true; is_open = true })
    else (some sftp_connection_error, a)

-- `__exit__`
unfoldable pub exit : Adapter → Adapter
exit a = record {
  has_transport = false;
  has_sftp = false;
  is_open = if a.has_transport then false else a.is_open;
}

-- `_ensure_connected`
unfoldable pub ensure_connected : Adapter → Option Problem
ensure_connected a = if a.has_sftp then none else some sftp_connection_error

-- the block after `__enter__`: an exception of `__enter__` leaves the `with` at once, one of the body
-- leaves it after `__exit__`
abbrev finish : Bool → Option Problem × Adapter → Option Problem × Adapter
finish body_raises (some e, a) = (some e, a)
finish true (none, a) = (some body_error, exit a)
finish false (none, a) = (none, exit a)

-- `with SFTPAdapter(…) as sftp: body`
unfoldable pub with_adapter : Server → Bool → Option Problem × Adapter
with_adapter server body_raises = finish body_raises (enter server new_adapter)

-- paramiko raises another exception than its own while a transport is open
abbrev escapes : Attempt → Attempt → Bool
escapes Attempt.other_error session = true
escapes Attempt.done Attempt.other_error = true
escapes connect session = false

abbrev pub is_untyped : Server → Bool
is_untyped server = server.reachable && escapes server.connect server.from_transport

-- the exception that leaves the block is not one of the adapter or of the body
abbrev pub is_other : Option Problem → Bool
is_other (some Problem.other_error) = true
is_other _ = false

abbrev Closes : Server → Bool → Type 0
Closes server body_raises =
    ((with_adapter server body_raises).1.is_open ≡ is_untyped server)
    × (is_other (with_adapter server body_raises).0 ≡ is_untyped server)

closes :
    (reachable : Bool) (connect session : Attempt) (body_raises : Bool)
    → Closes
        (record { reachable = reachable; connect = connect; from_transport = session })
        body_raises
unfolding with_adapter enter exit
closes false connect session body_raises = (refl, refl)
closes true Attempt.done Attempt.done true = (refl, refl)
closes true Attempt.done Attempt.done false = (refl, refl)
closes true Attempt.done Attempt.authentication_error body_raises = (refl, refl)
closes true Attempt.done Attempt.ssh_error body_raises = (refl, refl)
closes true Attempt.done Attempt.other_error body_raises = (refl, refl)
closes true Attempt.authentication_error session body_raises = (refl, refl)
closes true Attempt.ssh_error session body_raises = (refl, refl)
closes true Attempt.other_error session body_raises = (refl, refl)

-- After a `with` block, whether the connection, the log-in, the session or the body failed, the
-- transport is still open, and an exception that is neither the adapter's nor the body's leaves the
-- block, exactly if paramiko raised an exception other than its own while the transport was open.
pub with_adapter-is_open :
    (server : Server) (body_raises : Bool)
    → ((with_adapter server body_raises).1.is_open ≡ is_untyped server)
      × (is_other (with_adapter server body_raises).0 ≡ is_untyped server)
with_adapter-is_open server body_raises =
    closes server.reachable server.connect server.from_transport body_raises
