-- ===== src/Emergency.antt =====
-- The electricity failures, lib/emergNotif/src/emergNotif.c: the process that connects to the server's
-- UNIX socket and sends the notice.
pub mod Laws
use shelter_server_hpc.Prelude.{ℕ, ◌+◌, ◌%◌, ℤ, pos, Bool, true, false, Bytes, codes, if◌then◌else◌}
use shelter_server_hpc.Posix.{
  Address, unix_path, af_unix, sock_stream, socket, connect, send, Kernel, Program, ◌>>=◌, ◌>>◌,
  pure, exit_failure, perform, is_minus_one,
}

abbrev pub sock_path : Bytes
sock_path = codes "/tmp/refugie_unix_socket"

abbrev pub failure_message : Bytes
failure_message = codes "Electricity failure. Disconnecting all clients."

module _ (answer : Kernel) where
  abbrev pub after_connect : ℤ → ℤ → Program ℤ
  after_connect sockfd r = if is_minus_one r then exit_failure else pure sockfd

  abbrev pub after_socket : ℤ → Program ℤ
  after_socket sockfd =
      if is_minus_one sockfd
      then exit_failure
      else (perform answer (connect sockfd (unix_path sock_path)) >>= after_connect sockfd)

  unfoldable pub init_emergency_notification : Program ℤ
  init_emergency_notification = perform answer (socket af_unix sock_stream (pos 0)) >>= after_socket

  -- The report of a negative descriptor does not end the function; neither does a failed `send`.
  unfoldable pub simulate_electricity_failure : ℤ → Program (Unit {0})
  simulate_electricity_failure sockfd = do perform answer (send sockfd failure_message); pure tt

-- `get_random_failure_minutes`, on what `rand` gives.
unfoldable pub get_random_failure_minutes : ℕ → ℕ
get_random_failure_minutes rand = rand % 6 + 5
