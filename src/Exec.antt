-- ===== src/Exec.antt =====
-- Programs of the C++ server: a state, and how a piece of code ends. The state comes back in every
-- case, since what was written before an exception stays written.
pub mod Keeps
pub mod Steps
use shelter_server_hpc.Prelude.{Bool, if◌then◌else◌}

-- A value, a `std::exception`, `exit(EXIT_FAILURE)`, or undefined behaviour, of which the state that
-- comes with it says nothing.
pub data Result (A : Type 0) : Type 0 where
  ok : A → Result A
  throws exits crashes : Result A

abbrev pub Exec : Type 0 → Type 0 → Type 0
Exec S A = S → Result A × S

abbrev pub and_then : {S A B : Type 0} → (A → Exec S B) → Result A × S → Result B × S
and_then f (ok a, s) = f a s
and_then f (throws, s) = (throws, s)
and_then f (exits, s) = (exits, s)
and_then f (crashes, s) = (crashes, s)

infixl 5 ◌>>=◌ ◌>>◌
unfoldable pub ◌>>=◌ : {S A B : Type 0} → Exec S A → (A → Exec S B) → Exec S B
◌>>=◌ m f s = and_then f (m s)

unfoldable pub ◌>>◌ : {S A B : Type 0} → Exec S A → Exec S B → Exec S B
◌>>◌ m k s = and_then (λ _. k) (m s)

module _ {S A : Type 0} where
  unfoldable pub pure : A → Exec S A
  pure a s = (ok a, s)

  unfoldable pub ends : Result A → Exec S A
  ends r s = (r, s)

  unfoldable pub gets : (S → A) → Exec S A
  gets f s = (ok (f s), s)

unfoldable pub nothing : {S : Type 0} → Exec S (Unit {0})
nothing s = (ok tt, s)

unfoldable pub modify : {S : Type 0} → (S → S) → Exec S (Unit {0})
modify f s = (ok tt, f s)

-- `try { m } catch (const std::exception& e) { ... }`, where the handler prints, and the code goes on
-- with a value that it has set before.
abbrev pub caught : {S A : Type 0} → A → Result A × S → Result A × S
caught a (ok b, s) = (ok b, s)
caught a (throws, s) = (ok a, s)
caught a (exits, s) = (exits, s)
caught a (crashes, s) = (crashes, s)

unfoldable pub try_or : {S A : Type 0} → A → Exec S A → Exec S A
try_or a m s = caught a (m s)

abbrev pub catching : {S : Type 0} → Exec S (Unit {0}) → Exec S (Unit {0})
catching m = try_or tt m

unfoldable pub when : {S : Type 0} → Bool → Exec S (Unit {0}) → Exec S (Unit {0})
unfolding nothing
when b m s = (if b then m else nothing) s
