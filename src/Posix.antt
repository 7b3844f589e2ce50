-- ===== src/Posix.antt =====
-- System calls. A program works on the history of the calls that it has made and of their results;
-- what the system answers to a call may depend on all that came before.
use shelter_server_hpc.Prelude.{
  ℕ, ◌+◌, ◌-◌, ◌*◌, ◌/◌, ◌%◌, ◌<◌, ◌≡◌, refl, arith, ℤ, pos, negsuc, Bool, true, false, List, [],
  ◌∷◌, ◌++◌, Bytes, if◌then◌else◌, ◌==◌, Bool-cases, inl, inr,
}

pub data Domain : Type 0 where
  af_unix af_inet af_inet6 : Domain

pub data SockType : Type 0 where
  sock_stream sock_dgram : SockType

pub data SockOpt : Type 0 where
  so_reuseaddr so_reuseport : SockOpt

-- A socket address: any address of the family with a port in network byte order, a path, or an
-- address that `getaddrinfo` found.
pub data Address : Type 0 where
  any_inet any_inet6 : ℕ → Address
  unix_path : Bytes → Address
  resolved : ℕ → Address

pub data Call : Type 0 where
  socket : Domain → SockType → ℤ → Call
  setsockopt : ℤ → SockOpt → ℕ → Call
  bind : ℤ → Address → Call
  listen : ℤ → ℤ → Call
  getsockname : ℤ → Call
  inet_ntop : ℤ → Call
  connect : ℤ → Address → Call
  send : ℤ → Bytes → Call
  close : ℤ → Call

abbrev pub History : Type 0
History = List (Call × ℤ)

-- What the system answers.
abbrev pub Kernel : Type 0
Kernel = History → Call → ℤ

-- A program returns, or has called `exit(EXIT_FAILURE)`.
pub data Outcome (A : Type 0) : Type 0 where
  returns : A → Outcome A
  exits : Outcome A

abbrev pub Program : Type 0 → Type 0
Program A = History → Outcome A × History

abbrev pub and_then : {A B : Type 0} → (A → Program B) → Outcome A × History → Outcome B × History
and_then f (returns a, h) = f a h
and_then f (exits, h) = (exits, h)

infixl 5 ◌>>=◌ ◌>>◌
abbrev pub ◌>>=◌ : {A B : Type 0} → Program A → (A → Program B) → Program B
◌>>=◌ m f h = and_then f (m h)

abbrev pub ◌>>◌ : {A B : Type 0} → Program A → Program B → Program B
◌>>◌ m k h = and_then (λ _. k) (m h)

abbrev pub pure : {A : Type 0} → A → Program A
pure a h = (returns a, h)

abbrev pub exit_failure : {A : Type 0} → Program A
exit_failure h = (exits, h)

abbrev pub perform : Kernel → Call → Program ℤ
perform answer c h = let r = answer h c in (returns r, h ++ ((c, r) ∷ []))

-- `x < 0`
abbrev pub negative : ℤ → Bool
negative (pos n) = false
negative (negsuc n) = true

-- `x == -1`
abbrev pub is_minus_one : ℤ → Bool
is_minus_one (pos n) = false
is_minus_one (negsuc n) = n == 0

-- A call whose negative result ends the program.
abbrev pub perform_or_exit : Kernel → Call → Program ℤ
perform_or_exit answer c = do r ← perform answer c; if negative r then exit_failure else pure r

-- `(uint16_t)x`
unfoldable pub uint16 : ℤ → ℕ
uint16 (pos n) = n % 65536
uint16 (negsuc n) = 65535 - n % 65536

-- `htons` and `ntohs` on a little-endian machine: the two bytes change places.
unfoldable pub htons : ℕ → ℕ
htons x = x % 256 * 256 + x / 256 % 256

pub htons-htons : (x : ℕ) → x < 65536 → htons (htons x) ≡ x
unfolding htons
htons-htons x h = omega arith

pub uint16-lt : (x : ℤ) → uint16 x < 65536
unfolding uint16
uint16-lt (pos n) = omega arith
uint16-lt (negsuc n) = omega arith

-- The last call of the history has failed.
abbrev pub Failed : History → Type 0
Failed h = (h₀ : History) × (c : Call) × (r : ℤ) × (h ≡ h₀ ++ ((c, r) ∷ [])) × (negative r ≡ true)

-- `P` holds of what a program returns and of its history; if it exits, its last call has failed.
abbrev pub Ensures : {A : Type 0} → (A → History → Type 0) → Outcome A × History → Type 0
Ensures P (returns a, h) = P a h
Ensures P (exits, h) = Failed h

module _ {A : Type 0} (answer : Kernel) (P : A → History → Type 0) (f : ℤ → Program A) where
  -- The program goes on with a result that is not negative.
  pub perform_or_exit-Ensures :
      (c : Call) (h : History)
      → ((r : ℤ) → negative r ≡ false → Ensures P (f r (h ++ ((c, r) ∷ []))))
      → Ensures P (and_then f (perform_or_exit answer c h))
  perform_or_exit-Ensures c h k = elim (Bool-cases (negative (answer h c))) [
    | inl bad ↦ rw bad (h, c, answer h c, refl, bad)
    | inr good ↦ rw good (k (answer h c) good)
  ]
