-- ===== src/TcpClient/Session.antt =====
-- The state of one process of the TCP client, and the programs that work on it.
use shelter_server_hpc.Prelude.{ℕ, ℤ, Bool, String, Option, none, some, List, [], ◌∷◌, ◌++◌, Bytes}
use shelter_server_hpc.CJson.{CJson}
use shelter_server_hpc.Stdio.{fgets, scanf_int, getchar}

-- What one call of `recv` gives.
pub data Recv : Type 0 where
  recv_error recv_closed : Recv
  recv_bytes : Bytes → Recv

-- What `fork` gives: an error, or that this is the child, whose `dup2` succeeds or not, or the parent.
pub data Fork : Type 0 where
  fork_fails in_parent : Fork
  in_child : Bool → Fork

-- What a process does to the world. Prompts and menus are left out.
pub data Event : Type 0 where
  sent : Bytes → Event
  says : String → Event
  shows : String → Option Bytes → Event
  wrote : Bytes → Event
  child_stopped child_continued child_interrupted parent_interrupted socket_closed : Event

-- The global variables, `getpid() == pid_parent`, the input still to come, the results of the calls
-- of `recv` still to come, whether the file of the ZIP can be opened, and what was done so far.
pub record Client : Type 0 where
  pub connected : Bool
  pub authenticated : Bool
  pub zip_size_bytes : ℤ
  pub is_parent : Bool
  pub has_child : Bool
  pub stdin : Bytes
  pub incoming : List Recv
  pub zip_opens : Bool
  pub events : List Event

-- How a piece of code ends. `again` and `leaves` are `continue` and `return` in the loop of
-- `handle_user_input`; `blocks` is a `recv` that nothing answers.
pub data Result (A : Type 0) : Type 0 where
  returns : A → Result A
  again leaves crashes blocks out_of_fuel : Result A
  exits : ℕ → Result A

abbrev pub Run : Type 0 → Type 0
Run A = Client → Result A × Client

abbrev pub and_then : {A B : Type 0} → (A → Run B) → Result A × Client → Result B × Client
and_then f (returns a, c) = f a c
and_then f (again, c) = (again, c)
and_then f (leaves, c) = (leaves, c)
and_then f (crashes, c) = (crashes, c)
and_then f (blocks, c) = (blocks, c)
and_then f (out_of_fuel, c) = (out_of_fuel, c)
and_then f (exits status, c) = (exits status, c)

infixl 5 ◌>>=◌ ◌>>◌
abbrev pub ◌>>=◌ : {A B : Type 0} → Run A → (A → Run B) → Run B
◌>>=◌ m f c = and_then f (m c)

abbrev pub ◌>>◌ : {A B : Type 0} → Run A → Run B → Run B
◌>>◌ m k c = and_then (λ _. k) (m c)

abbrev pub ends : {A : Type 0} → Result A → Run A
ends r c = (r, c)

abbrev pub emit : Event → Run (Unit {0})
emit e c = (returns tt, record c { events = c.events ++ (e ∷ []) })

-- `fgets(input, BUFFER_SIZE, stdin)`; at the end of the input the caller returns.
unfoldable pub read_input : Run Bytes
read_input c = elim (fgets 1024 c.stdin) [
  | none ↦ (do emit (says "Error reading input"); ends leaves) c
  | some (line, rest) ↦ (returns line, record c { stdin = rest })
]

-- `scanf("%d", &value)`
unfoldable pub scan_int : Run (Option ℤ)
scan_int c = let (value, rest) = scanf_int c.stdin in (returns value, record c { stdin = rest })

abbrev pub skip_char : Run (Unit {0})
skip_char c = (returns tt, record c { stdin = getchar c.stdin })

-- The next result of `recv`.
unfoldable pub next_recv : Run Recv
next_recv c = elim c.incoming [
  | [] ↦ (blocks, c)
  | r ∷ rest ↦ (returns r, record c { incoming = rest })
]

-- `disconnect(sockfd)`: close, and `exit(EXIT_SUCCESS)`
abbrev pub disconnect : {A : Type 0} → Run A
disconnect = do emit socket_closed; ends (exits 0)

-- `send_json`: `strlen` reads the printed text.
unfoldable pub send_json : (C : CJson) → C.Json → Run (Unit {0})
send_json C json = elim (C.print json) [ none ↦ ends crashes | some text ↦ emit (sent text) ]
