-- ===== src/TcpClient/ConnectLaws.antt =====
-- The sockets that `do_connect` leaves open.
use shelter_server_hpc.Prelude.{
  ◌≡◌, ℤ, pos, negsuc, Bool, false, List, [], ◌∷◌, ◌++◌, if◌then◌else◌, ◌==◌,
}
use shelter_server_hpc.Posix.{
  Address, Call, socket, connect, close, History, Outcome, returns, exits, is_minus_one,
}

unfoldable same_fd : ℤ → ℤ → Bool
same_fd (pos a) (pos b) = a == b
same_fd (negsuc a) (negsuc b) = a == b
same_fd _ _ = false

unfoldable drop_fd : ℤ → List ℤ → List ℤ
drop_fd fd [] = []
drop_fd fd (x ∷ xs) = if same_fd fd x then xs else x ∷ drop_fd fd xs

-- The open sockets after one more call, the last opened first.
unfoldable step : List ℤ → Call × ℤ → List ℤ
unfolding drop_fd same_fd
step open_fds (socket d t p, r) = if is_minus_one r then open_fds else r ∷ open_fds
step open_fds (close fd, r) = drop_fd fd open_fds
step open_fds _ = open_fds

unfoldable steps : List ℤ → History → List ℤ
unfolding step
steps open_fds [] = open_fds
steps open_fds (c ∷ h) = steps (step open_fds c) h

-- The sockets that a history leaves open.
pub sockets_open : History → List ℤ
unfolding steps
sockets_open h = steps [] h

-- How a program that began with some open sockets ends: it returns the one new socket, whose
-- connection is the last call, or it exits and has opened none.
pub Connected : List ℤ → Outcome ℤ × History → Type 0
Connected before (returns fd, h) =
    (sockets_open h ≡ fd ∷ before)
    × ((a : Address) × (r : ℤ) × (h₀ : History) × (h ≡ h₀ ++ ((connect fd a, r) ∷ []))
        × (is_minus_one r ≡ false))
Connected before (exits, h) = sockets_open h ≡ before
