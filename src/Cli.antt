-- ===== src/Cli.antt =====
-- crates/netplan-cli/src: the command line. What it finds outside is a parameter, `Env`: the daemon at
-- its endpoint, the service control manager, processes, files and the clock.
pub mod Services
pub mod Lifecycle
pub mod Commands
pub mod Interactive
pub mod Words
pub mod Settled
pub mod Answered
pub mod Deadlines
use netplan.Base.{ℕ, ◌≡◌, refl, sym, arith, Bool, true, false, Option, List, Text, Result, ok, err}
use netplan.Protocol.{Request, Response, ErrorCode}

-- The kinds of `std::io::Error` that `is_endpoint_absent` tells apart
pub data IoKind : Type 0 where
  not_found connection_refused connection_reset other_kind : IoKind

-- The error of a call: `Error::Io`, or any other, with its text
pub data CallError : Type 0 where
  io_error : IoKind → Text → CallError
  other_error : Text → CallError

-- How `OpenServiceW` ends
pub data Opened : Type 0 where
  opened missing : Opened
  not_opened : Text → Opened

-- A call takes the state of the machine, and leaves another one also where it fails.
abbrev pub Task : Type 0 → Type 0 → Type 0
Task S A = S → Result Text A × S

-- The errors are texts as `windows_error` makes them. A `Bool` in an answer says that the call failed
-- with `ERROR_SERVICE_ALREADY_RUNNING` or `ERROR_SERVICE_NOT_ACTIVE`.
pub record Env (S : Type 0) : Type 0 where
  pub endpoint : Text
  pub default_endpoint : Text
  pub debug : Text → Text
  pub debug_code : ErrorCode → Text
  pub debug_response : Response → Text
  pub call : Request → S → Result CallError Response × S
  -- `tokio::time::sleep` and `thread::sleep`, in milliseconds, and `Instant::now`
  pub sleep : ℕ → S → S
  pub now : S → ℕ
  pub is_elevated : Task S Bool
  pub run_as_administrator : List Text → Task S (Option ℕ)
  -- `Command::new(program)` with the endpoint, for the daemon beside this program or on the path
  pub start_sibling : Text → Task S (Unit {0})
  pub daemon_program : Task S Text
  pub read_file : Text → Task S (List ℕ)
  pub open_manager : Task S (Unit {0})
  pub open_service : S → Opened × S
  pub change_config : Text → Task S (Unit {0})
  pub create_service : Text → Task S (Unit {0})
  pub delete_service : Task S (Unit {0})
  pub query_state : Task S ℕ
  pub start_service : S → Result (Bool × Text) (Unit {0}) × S
  pub control_stop : S → Result (Bool × Text) (Unit {0}) × S

abbrev pub pure : {S A : Type 0} → A → Task S A
pure a s = (ok a, s)

abbrev pub fail : {S A : Type 0} → Text → Task S A
fail message s = (err message, s)

infixl 5 ◌>>=◌ ◌>>◌
abbrev pub after : {S A B : Type 0} → (A → Task S B) → Result Text A × S → Result Text B × S
after f (ok a, s) = f a s
after f (err message, s) = (err message, s)

-- `?`
unfoldable pub ◌>>=◌ : {S A B : Type 0} → Task S A → (A → Task S B) → Task S B
◌>>=◌ m f s = after f (m s)

abbrev pub ◌>>◌ : {S B : Type 0} → Task S (Unit {0}) → Task S B → Task S B
m >> k = m >>= λ _. k

pub bind-ok :
    {S A B : Type 0} (m : Task S A) (f : A → Task S B) (s : S) {b : B} {t : S}
    → (m >>= f) s ≡ (ok b, t)
    → (a : A) × (u : S) × (m s ≡ (ok a, u)) × (f a u ≡ (ok b, t))
unfolding ◌>>=◌
bind-ok {S} {A} {B} m f s {b} {t} h = go (m s) refl h
  where
    go :
        (answer : Result Text A × S)
        → m s ≡ answer
        → after f answer ≡ (ok b, t)
        → (a : A) × (u : S) × (m s ≡ (ok a, u)) × (f a u ≡ (ok b, t))
    go (ok a, u) e k = (a, u, e, k)
    go (err message, u) e k = absurd (ground arith)

unfoldable pub is_endpoint_absent : CallError → Bool
is_endpoint_absent (io_error not_found text) = true
is_endpoint_absent (io_error connection_refused text) = true
is_endpoint_absent (io_error connection_reset text) = true
is_endpoint_absent (io_error other_kind text) = false
is_endpoint_absent (other_error text) = false

abbrev pub error_text : CallError → Text
error_text (io_error kind text) = text
error_text (other_error text) = text
