-- ===== src/Stack/Programs.antt =====
-- The programs examples/binding_cli.rs and examples/binding_srv.rs. What a program takes from its
-- process and from other crates is a record: the command line as clap has read it, the addresses of
-- names, the socket and the executor of futures.
use Prim.Native.String.{◌++◌}
use rustun.Prelude.{
  String, ℕ, ◌≡◌, Bool, true, false, Option, none, some, List, [], ◌∷◌, Result, ok, err,
  if◌then◌else◌,
}
use rustun.Error.{ErrorKind, ForeignErrorKind}
use rustun.Message.ErrorResponse.{Response}
use rustun.Server.{HandlerDriver}
use rustun.Server.Binding.{Rfc5389, binding_handler}
use rustun.Stack.{UdpStack, udp_channel}
use rustun.Stack.Start.{Driver, bound, udp_channel_on, call_binding, udp_server, udp_start}

-- `clap::Arg` and `clap::App`, as far as the programs set them.
pub record Arg : Type 0 where
  pub name : String
  pub index : Option ℕ
  pub short : Option String
  pub long : Option String
  pub takes_value : Bool
  pub required : Bool
  pub default_value : Option String

pub record App : Type 0 where
  pub name : String
  pub args : List Arg

abbrev pub host_arg : Arg
host_arg = record {
  name = "HOST";
  index = some 1;
  short = none;
  long = none;
  takes_value = false;
  required = true;
  default_value = none;
}

abbrev pub port_arg : Arg
port_arg = record {
  name = "PORT";
  index = none;
  short = some "p";
  long = some "port";
  takes_value = true;
  required = true;
  default_value = some "3478";
}

abbrev pub cli_app : App
cli_app = record { name = "binding_cli"; args = host_arg ∷ port_arg ∷ [] }

abbrev pub srv_app : App
srv_app = record { name = "binding_srv"; args = port_arg ∷ [] }

-- `get_matches` gives `value_of`, or has ended the process with a usage text; `to_socket_addrs`,
-- `is_ipv4`, `parse` of an address, and `bind` of the UDP transporter. An address is a number.
pub record Process (u : UdpStack) : Type 0 where
  pub get_matches : App → Option (String → Option String)
  pub to_socket_addrs : String → Option (List ℕ)
  pub is_ipv4 : ℕ → Bool
  pub parse : String → Option ℕ
  pub bind : ℕ → Result u.udp.inner.State ForeignErrorKind

-- The arguments that are required have a value.
abbrev pub AllGiven : (String → Option String) → List Arg → Type 0
AllGiven value_of [] = Unit {0}
AllGiven value_of (a ∷ args) =
    (if a.required then ((v : String) × (value_of a.name ≡ some v)) else Unit {0})
    × AllGiven value_of args

-- The documented behaviour of clap: it returns only if the arguments that are required are given, or
-- have a default value.
pub record IsClap {u : UdpStack} (p : Process u) : Type 0 where
  pub get_matches-AllGiven :
      (app : App) (value_of : String → Option String)
      → p.get_matches app ≡ some value_of
      → AllGiven value_of app.args

-- An error of `main`: a text that is no address, `Failed`, or an error of the library.
pub data MainError : Type 0 where
  address : MainError
  failed : MainError
  stun : ErrorKind → MainError

-- What `main` ends with: it has printed a value, or returns an error, or an `unwrap` has panicked, or
-- the process has ended before.
pub data MainEnd (A : Type 0) : Type 0 where
  printed : A → MainEnd A
  main_error : MainError → MainEnd A
  panicked : MainEnd A
  exited : MainEnd A

-- `unwrap`.
abbrev pub unwrap : {A B : Type 0} → Option A → (A → MainEnd B) → MainEnd B
unwrap none k = panicked
unwrap (some a) k = k a

-- `get_matches`, which may not return.
abbrev pub matched : {A B : Type 0} → Option A → (A → MainEnd B) → MainEnd B
matched none k = exited
matched (some a) k = k a

-- `?` on an `Option` that `none` makes an error of.
abbrev pub or_error : {A B : Type 0} → MainError → Option A → (A → MainEnd B) → MainEnd B
or_error e none k = main_error e
or_error e (some a) k = k a

-- `track!(..)?`.
abbrev pub tracked : {A B : Type 0} → Result A ErrorKind → (A → MainEnd B) → MainEnd B
tracked (ok a) k = k a
tracked (err e) k = main_error (stun e)

-- `.filter(|x| x.is_ipv4()).nth(0)`.
unfoldable pub first_ipv4 : (ℕ → Bool) → List ℕ → Option ℕ
first_ipv4 is_ipv4 [] = none
first_ipv4 is_ipv4 (x ∷ xs) = if is_ipv4 x then some x else first_ipv4 is_ipv4 xs

-- `format!("{}:{}", host, port)`.
abbrev pub host_port : String → String → String
host_port host port = host ++ ":" ++ port

-- `format!("0.0.0.0:{}", port)`.
abbrev pub any_port : String → String
any_port port = "0.0.0.0:" ++ port

module _ (u : UdpStack) (rfc : Rfc5389 u.udp.codec ℕ) (p : Process u) where
  open u use {udp}

  -- `execute(response)`, of the future of a transporter that binds and a call on it. `wait` is what
  -- comes of the call when the driver runs; `id` is the random transaction id of the request, and
  -- `reply` the handle of the call.
  unfoldable pub execute_call :
      (Driver u rfc → Result (Response udp.codec) ErrorKind)
      → ℕ
      → ℕ
      → ℕ
      → ℕ
      → Result (Response udp.codec) ErrorKind
  unfolding bound udp_channel_on call_binding
  execute_call wait id reply peer_addr local_addr =
      elim (bound (λ t. call_binding (udp_channel u) rfc peer_addr id reply (udp_channel_on u t))
        (p.bind local_addr)) [ ok driver ↦ wait driver | err e ↦ err e ]

  -- `main` of binding_cli.
  unfoldable pub binding_cli :
      (Driver u rfc → Result (Response udp.codec) ErrorKind) → ℕ → ℕ → MainEnd (Response udp.codec)
  unfolding execute_call first_ipv4
  binding_cli wait id reply = matched (p.get_matches cli_app) (λ value_of.
      unwrap (value_of "HOST") (λ host. unwrap (value_of "PORT") (λ port.
        or_error address (p.to_socket_addrs (host_port host port)) (λ addrs.
          or_error failed (first_ipv4 p.is_ipv4 addrs) (λ peer_addr.
            unwrap (p.parse "0.0.0.0:0")
              (λ local_addr. tracked (execute_call wait id reply peer_addr local_addr) printed))))))

  -- `main` of binding_srv. `serve` is what the server's future ends with when it runs, which can only
  -- be an error.
  unfoldable pub binding_srv :
      (F : Type 0)
      → (HandlerDriver (udp_server u F (binding_handler udp.codec ℕ F rfc)) → Result ⊥ ErrorKind)
      → MainEnd (Unit {0})
  unfolding udp_start
  binding_srv F serve = matched (p.get_matches srv_app) (λ value_of.
      unwrap (value_of "PORT") (λ port. or_error address (p.parse (any_port port)) (λ addr.
        tracked (udp_start u (binding_handler udp.codec ℕ F rfc) tt (p.bind addr))
          (λ server. tracked (serve server) (λ _. printed tt)))))
