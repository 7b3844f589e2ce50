-- ===== src/Sockets/Ready.antt =====
-- What the returned descriptors are good for: the state of a descriptor is read off the history of
-- system calls and of their results.
use shelter_server_hpc.Prelude.{
  ◌≡◌, refl, arith, ℤ, pos, negsuc, Bool, true, false, not, ◌&&◌, Bytes, [], ◌∷◌, ◌++◌,
  if◌then◌else◌, ◌==◌, inl, inr, Bool-cases,
}
use shelter_server_hpc.Posix.{
  SockType, Address, Call, sock_stream, sock_dgram, any_inet, any_inet6, unix_path, socket, bind,
  listen, inet_ntop, close, History, Kernel, and_then, Program, Ensures, perform_or_exit,
  perform_or_exit-Ensures, exit_failure, pure, ◌>>◌, negative, is_minus_one, uint16, htons,
}
use shelter_server_hpc.Sockets.Setup.{
  set_tcp_ipv4_socket, set_tcp_ipv6_socket, set_udp_ipv4_socket, set_udp_ipv6_socket,
  set_unix_socket, set_tcp_socket, set_udp_socket, sun_path,
}

pub data SockState : Type 0 where
  absent : SockState
  created : SockType → SockState
  bound : SockType → Address → SockState
  listening : Address → SockState

abbrev pub eq_ℤ : ℤ → ℤ → Bool
eq_ℤ (pos m) (pos n) = m == n
eq_ℤ (negsuc m) (negsuc n) = m == n
eq_ℤ _ _ = false

pub eq_ℤ_refl : (z : ℤ) → eq_ℤ z z ≡ true
eq_ℤ_refl (pos n) = ground arith
eq_ℤ_refl (negsuc n) = ground arith

-- A successful `bind` names a created socket; a successful `listen` opens a named stream socket.
abbrev bind_state : Address → SockState → SockState
bind_state a (created k) = bound k a
bind_state a s = s

abbrev listen_state : SockState → SockState
listen_state (bound sock_stream a) = listening a
listen_state s = s

-- One call and its result, as the descriptor `fd` sees it.
abbrev state_step : ℤ → SockState → Call × ℤ → SockState
state_step fd s (socket d k p, r) = if eq_ℤ r fd then created k else s
state_step fd s (bind f a, r) = if eq_ℤ f fd && not (negative r) then bind_state a s else s
state_step fd s (listen f n, r) = if eq_ℤ f fd && not (negative r) then listen_state s else s
state_step fd s (close f, r) = if eq_ℤ f fd then absent else s
state_step fd s (_, r) = s

abbrev pub state_from : ℤ → SockState → History → SockState
state_from fd s [] = s
state_from fd s (e ∷ h) = state_from fd (state_step fd s e) h

abbrev pub state_of : ℤ → History → SockState
state_of fd h = state_from fd absent h

pub state_from-append :
    (fd : ℤ) (s : SockState) (h k : History)
    → state_from fd s (h ++ k) ≡ state_from fd (state_from fd s h) k
state_from-append fd s [] k = refl
state_from-append fd s (e ∷ h) k = state_from-append fd (state_step fd s e) h k

pub state_of-snoc :
    (fd : ℤ) (h : History) (c : Call) (r : ℤ)
    → state_of fd (h ++ ((c, r) ∷ [])) ≡ state_step fd (state_of fd h) (c, r)
state_of-snoc fd h c r = state_from-append fd absent h ((c, r) ∷ [])

-- The descriptor that is returned is in the state `s`.
abbrev pub IsIn : SockState → ℤ → History → Type 0
IsIn s fd h = state_of fd h ≡ s

-- The addresses that the functions bind.
abbrev pub inet_port : ℤ → Address
inet_port port = any_inet (htons (uint16 port))

abbrev pub inet6_port : ℤ → Address
inet6_port port = any_inet6 (htons (uint16 port))

module _ (answer : Kernel) where
  -- One checked call on the way to the state `s`.
  checked :
      (s : SockState) (f : ℤ → Program ℤ) (c : Call) (h : History)
      → ((r : ℤ) → negative r ≡ false → Ensures (IsIn s) (f r (h ++ ((c, r) ∷ []))))
      → Ensures (IsIn s) (and_then f (perform_or_exit answer c h))
  checked s = perform_or_exit-Ensures answer (IsIn s)

  negative_of_minus_one : (r : ℤ) → is_minus_one r ≡ true → negative r ≡ true
  negative_of_minus_one r e = ground arith

  -- One call whose result is checked against -1.
  checked_minus_one :
      (s : SockState) (p : Program ℤ) (c : Call) (h : History)
      → ((r : ℤ) → Ensures (IsIn s) (p (h ++ ((c, r) ∷ []))))
      → Ensures
          (IsIn s)
          ((if is_minus_one (answer h c) then exit_failure else p) (h ++ ((c, answer h c) ∷ [])))
  checked_minus_one s p c h e = elim (Bool-cases (is_minus_one (answer h c))) [
    | inl bad ↦ rw bad (h, c, answer h c, refl, negative_of_minus_one _ bad)
    | inr good ↦ rw good (e (answer h c))
  ]

  set_tcp_ipv4_socket-Ensures :
      (port max : ℤ) (h : History)
      → Ensures (IsIn (listening (inet_port port))) (set_tcp_ipv4_socket answer port max h)
  unfolding set_tcp_ipv4_socket
  set_tcp_ipv4_socket-Ensures port max h =
      let s = listening (inet_port port) in
      checked s _ _ _ λ fd _.
        checked s _ _ _
          λ b bound. checked s _ _ _ λ l listened. simp (state_of-snoc, eq_ℤ_refl, bound, listened)

  set_tcp_ipv6_socket-Ensures :
      (port max : ℤ) (h : History)
      → Ensures (IsIn (listening (inet6_port port))) (set_tcp_ipv6_socket answer port max h)
  unfolding set_tcp_ipv6_socket
  set_tcp_ipv6_socket-Ensures port max h =
      let s = listening (inet6_port port) in
      checked s _ _ _ λ fd _.
        checked s _ _ _
          λ b bound. checked s _ _ _ λ l listened. simp (state_of-snoc, eq_ℤ_refl, bound, listened)

  set_udp_ipv4_socket-Ensures :
      (port : ℤ) (h : History)
      → Ensures (IsIn (bound sock_dgram (inet_port port))) (set_udp_ipv4_socket answer port h)
  unfolding set_udp_ipv4_socket
  set_udp_ipv4_socket-Ensures port h =
      let s = bound sock_dgram (inet_port port) in
      checked s _ _ _ λ fd _.
        checked s _ _ _ λ o _. checked s _ _ _ λ b bound. simp (state_of-snoc, eq_ℤ_refl, bound)

  set_udp_ipv6_socket-Ensures :
      (port : ℤ) (h : History)
      → Ensures (IsIn (bound sock_dgram (inet6_port port))) (set_udp_ipv6_socket answer port h)
  unfolding set_udp_ipv6_socket
  set_udp_ipv6_socket-Ensures port h =
      let s = bound sock_dgram (inet6_port port) in
      checked s _ _ _ λ fd _.
        checked s _ _ _ λ o _. checked s _ _ _ λ b bound. simp (state_of-snoc, eq_ℤ_refl, bound)

  set_udp_socket-Ensures :
      (port : ℤ) (h : History)
      → Ensures (IsIn (bound sock_dgram (inet6_port port))) (set_udp_socket answer port h)
  unfolding set_udp_socket
  set_udp_socket-Ensures port h =
      let s = bound sock_dgram (inet6_port port) in
      checked s _ _ _ λ fd _.
        checked s _ _ _ λ o _. checked s _ _ _ λ b bound. simp (state_of-snoc, eq_ℤ_refl, bound)

  set_tcp_socket-Ensures :
      (port max : ℤ) (h : History)
      → Ensures (IsIn (listening (inet6_port port))) (set_tcp_socket answer port max h)
  unfolding set_tcp_socket
  set_tcp_socket-Ensures port max h =
      let s = listening (inet6_port port) in
      checked s _ _ _ λ sd _. checked s _ _ _ λ o _. checked s _ _ _ λ b bound.
        checked s _ _ _ λ g _.
          checked_minus_one s (perform_or_exit answer (listen sd max) >> pure sd) (inet_ntop sd) _
            λ t.
              checked s (λ _. pure sd) (listen sd max) _
                λ l listened. simp (state_of-snoc, eq_ℤ_refl, bound, listened)

  -- A stream socket listens on the path, a datagram socket is bound to it.
  abbrev pub unix_state : Bytes → Bool → SockState
  unix_state path true = listening (unix_path (sun_path 107 path))
  unix_state path false = SockState.bound sock_dgram (unix_path (sun_path 107 path))

  set_unix_socket-Ensures :
      (path : Bytes) (max : ℤ) (oriented : Bool) (h : History)
      → Ensures (IsIn (unix_state path oriented)) (set_unix_socket answer path max oriented h)
  unfolding set_unix_socket
  set_unix_socket-Ensures path max true h =
      let s = unix_state path true in
      checked s _ _ _ λ fd _.
        checked s _ _ _
          λ b bound. checked s _ _ _ λ l listened. simp (state_of-snoc, eq_ℤ_refl, bound, listened)
  set_unix_socket-Ensures path max false h =
      let s = unix_state path false in
      checked s _ _ _ λ fd _. checked s _ _ _ λ b bound. simp (state_of-snoc, eq_ℤ_refl, bound)

  -- Whatever the system answers, a stream socket function for the network returns a descriptor that
  -- listens, at any local address, on the low 16 bits of the port, or it exits when a call has failed.
  pub tcp_sockets-listening :
      (port max : ℤ) (h : History)
      → Ensures (IsIn (listening (inet_port port))) (set_tcp_ipv4_socket answer port max h)
        × Ensures (IsIn (listening (inet6_port port))) (set_tcp_ipv6_socket answer port max h)
        × Ensures (IsIn (listening (inet6_port port))) (set_tcp_socket answer port max h)
  tcp_sockets-listening port max h = (
    set_tcp_ipv4_socket-Ensures port max h,
    set_tcp_ipv6_socket-Ensures port max h,
    set_tcp_socket-Ensures port max h,
  )

  -- A datagram socket function returns a datagram socket that is bound to the low 16 bits of the port,
  -- or it exits when a call has failed.
  pub udp_sockets-bound :
      (port : ℤ) (h : History)
      → Ensures
          (IsIn (SockState.bound sock_dgram (inet_port port)))
          (set_udp_ipv4_socket answer port h)
        × Ensures
            (IsIn (SockState.bound sock_dgram (inet6_port port)))
            (set_udp_ipv6_socket answer port h)
        × Ensures
            (IsIn (SockState.bound sock_dgram (inet6_port port)))
            (set_udp_socket answer port h)
  udp_sockets-bound port h = (
    set_udp_ipv4_socket-Ensures port h,
    set_udp_ipv6_socket-Ensures port h,
    set_udp_socket-Ensures port h,
  )

  -- `set_unix_socket` returns a descriptor that listens on the path, cut to 107 bytes, if it is
  -- connection-oriented, and is bound to it otherwise, or it exits when a call has failed.
  pub set_unix_socket-unix_state :
      (path : Bytes) (max : ℤ) (oriented : Bool) (h : History)
      → Ensures (IsIn (unix_state path oriented)) (set_unix_socket answer path max oriented h)
  set_unix_socket-unix_state = set_unix_socket-Ensures
