-- ===== src/Emergency/Laws.antt =====
-- lib/emergNotif/src/emergNotif.c: notices as sequences of system calls, and the minutes between failures.
use shelter_server_hpc.Prelude.{
  ℕ, ◌-◌, ◌≤◌, ◌≡◌, refl, ◌↔◌, arith, ℤ, pos, true, false, [], ◌∷◌, ◌++◌, Bool-cases, inl, inr,
}
use shelter_server_hpc.Posix.{
  Call, unix_path, af_unix, sock_stream, socket, connect, send, History, Kernel, Outcome, returns,
  exits, Program, and_then, is_minus_one,
}
use shelter_server_hpc.Emergency.{
  sock_path, failure_message, init_emergency_notification, simulate_electricity_failure,
  get_random_failure_minutes,
}

-- The numbers of minutes that `rand` can lead to are exactly those from 5 to 10.
pub get_random_failure_minutes_iff :
    (minutes : ℕ)
    → ((rand : ℕ) × (rand ≤ 2147483647) × (get_random_failure_minutes rand ≡ minutes))
      ↔ ((5 ≤ minutes) × (minutes ≤ 10))
unfolding get_random_failure_minutes
get_random_failure_minutes_iff minutes =
    (λ (rand, _, e). (omega arith, omega arith), λ h. (minutes - 5, omega arith, omega arith))

-- The two calls of the module, one after the other.
abbrev pub notify : Kernel → Program (Unit {0})
notify answer h =
    and_then (simulate_electricity_failure answer) (init_emergency_notification answer h)

-- How a notification ends: it exits when a call has given -1, or it returns and has made a socket and
-- connected it to the server's path, both without an error, and then sent the notice on it, once.
pub Notified : History → Outcome (Unit {0}) × History → Type 0
Notified before (exits, h) =
    (h₀ : History) × (c : Call) × (r : ℤ) × (h ≡ h₀ ++ ((c, r) ∷ [])) × (is_minus_one r ≡ true)
Notified before (returns _, h) =
    (fd : ℤ) × (r : ℤ) × (s : ℤ) × (is_minus_one fd ≡ false)
    × (is_minus_one r ≡ false)
    × (h
        ≡ ((before ++ ((socket af_unix sock_stream (pos 0), fd) ∷ []))
            ++ ((connect fd (unix_path sock_path), r) ∷ []))
          ++ ((send fd failure_message, s) ∷ []))

-- Whatever the system answers, a notification returns after it has made a socket, connected it to the
-- server's path and sent the notice on it, once, or it exits when a call has given -1.
pub notify-Notified : (answer : Kernel) (h : History) → Notified h (notify answer h)
unfolding init_emergency_notification simulate_electricity_failure Notified
notify-Notified answer h =
    let fd = answer h (socket af_unix sock_stream (pos 0)) in
    let h₁ = h ++ ((socket af_unix sock_stream (pos 0), fd) ∷ []) in
    elim (Bool-cases (is_minus_one fd)) [
      | inl bad ↦ rw bad (h, socket af_unix sock_stream (pos 0), fd, refl, bad)
      | inr good ↦
          let r = answer h₁ (connect fd (unix_path sock_path)) in
          elim (Bool-cases (is_minus_one r)) [
            | inl bad ↦ rw (good, bad) (h₁, connect fd (unix_path sock_path), r, refl, bad)
            | inr fine ↦
                rw (good, fine)
                  (
                    fd,
                    r,
                    answer (h₁ ++ ((connect fd (unix_path sock_path), r) ∷ []))
                        (send fd failure_message),
                    good,
                    fine,
                    refl,
                  )
          ]
    ]
