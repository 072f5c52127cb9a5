-- ===== src/Examples/Programs.antt =====
-- Runs of the example programs.
use mathlib.Core.Option.{some-injective}
use text.Mathlib.Text.{◌==◌}
use rustun.Prelude.{
  ℕ, ◌≡◌, refl, subst, true, false, List, String, none, some, [], ◌∷◌, Result, ok, err, ltb,
  if◌then◌else◌,
}
use rustun.Error.{ErrorKind, MessageErrorKind}
use rustun.Message.ErrorResponse.{Response}
use rustun.Server.{HandlerDriver}
use rustun.Server.Binding.{binding_handler}
use rustun.Stack.Start.{Driver, udp_server, udp_start, bound}
use rustun.Stack.Programs.{
  Process, Arg, AllGiven, IsClap, binding_cli, binding_srv, main_error, failed, stun,
}
use rustun.Stack.Cli.{CliEnds, binding_cli-CliEnds}
use rustun.Examples.Toy.{toy_codec}
use rustun.Examples.Server.{toy_rfc}
use rustun.Examples.Stack.{toy_stack}

-- The value of the argument `name`, whichever arguments there are.
abbrev given : String → String
given name = if name == "PORT" then "3478" else "h"

-- A command line with the host `h` and the port 3478. The host has the addresses 7 and 12, of which the
-- second is an IPv4 address.
abbrev process : Process toy_stack
process = record {
  get_matches = λ app. some (λ name. some (given name));
  to_socket_addrs = λ text. if text == "h:3478" then some (7 ∷ 12 ∷ []) else none;
  is_ipv4 = ltb 10;
  parse = λ text.
      if text == "0.0.0.0:0" then some 1 else if text == "0.0.0.0:3478" then some 2 else none;
  bind = λ addr. ok [];
}

given-AllGiven : (args : List Arg) → AllGiven (λ name. some (given name)) args
given-AllGiven [] = tt
given-AllGiven (a ∷ args) = (
  elim a.required
      as (λ b. if b then ((v : String) × (some (given a.name) ≡ some v)) else Unit {0}) [
        | true ↦ (given a.name, refl)
        | false ↦ tt
      ],
  given-AllGiven args,
)

abbrev process_clap : IsClap process
process_clap = record {
  get_matches-AllGiven = λ app value_of e.
      let p : (λ name. some (given name)) ≡ value_of = some-injective _ _ e in
      subst (λ v. AllGiven v app.args) p (given-AllGiven app.args);
}

abbrev wait : Driver toy_stack toy_rfc → Result (Response toy_codec) ErrorKind
wait d = err (ErrorKind.invalid_message MessageErrorKind.timeout)

binding_cli-timeout :
    binding_cli toy_stack toy_rfc process wait 5 0
    ≡ main_error (stun (ErrorKind.invalid_message MessageErrorKind.timeout))
unfolding binding_cli
binding_cli-timeout = refl

binding_cli-none_ipv4 :
    binding_cli toy_stack toy_rfc (record process { is_ipv4 = ltb 20 }) wait 5 0 ≡ main_error failed
unfolding binding_cli
binding_cli-none_ipv4 = refl

binding_cli-CliEnds_example :
    CliEnds toy_stack toy_rfc process wait 5 0 (binding_cli toy_stack toy_rfc process wait 5 0)
binding_cli-CliEnds_example = binding_cli-CliEnds toy_stack toy_rfc process wait 5 0 process_clap

abbrev serve :
    HandlerDriver (udp_server toy_stack (Unit {0}) (binding_handler toy_codec ℕ (Unit {0}) toy_rfc))
    → Result ⊥ ErrorKind
serve d = err ErrorKind.other

-- The server program binds to the address of the text 0.0.0.0:3478, and ends with the error of its
-- server.
binding_srv-serve :
    binding_srv toy_stack toy_rfc process (Unit {0}) serve ≡ main_error (stun ErrorKind.other)
unfolding binding_srv udp_start bound
binding_srv-serve = refl
