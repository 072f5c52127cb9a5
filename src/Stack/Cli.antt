-- ===== src/Stack/Cli.antt =====
-- What the command line client ends with: examples/binding_cli.rs.
use rustun.Prelude.{
  ℕ, ◌≡◌, refl, ap, Bool, true, false, Option, none, some, List, [], ◌∷◌, Result, ok, err,
  Bool-cases, inl, inr, ◌⊎◌, ◌++◌, String, arith,
}
use rustun.Codec.{MessageClass}
use rustun.Error.{ErrorKind, ForeignErrorKind, error_from_transport}
use rustun.Message.Request
use rustun.Message.ErrorResponse.{Response}
use rustun.Client
use rustun.Client.{ChannelDriver, call}
use rustun.Server.Binding.{Rfc5389}
use rustun.Stack.{UdpStack, udp_channel}
use rustun.Stack.Start.{Driver, udp_channel_on, bound, call_binding}
use rustun.Stack.Programs.{
  Process, IsClap, cli_app, exited, matched, MainError, MainEnd, address, failed, stun, printed,
  main_error, panicked, unwrap, or_error, tracked, first_ipv4, host_port, execute_call, binding_cli,
}

module _ (is_ipv4 : ℕ → Bool) where
  abbrev pub NoneIpv4 : List ℕ → Type 0
  NoneIpv4 [] = Unit {0}
  NoneIpv4 (x ∷ xs) = (is_ipv4 x ≡ false) × NoneIpv4 xs

  -- The first of the addresses that is an IPv4 address.
  abbrev pub IsFirst : List ℕ → Option ℕ → Type 0
  IsFirst addrs none = NoneIpv4 addrs
  IsFirst addrs (some x) =
      (pre : List ℕ) × (post : List ℕ) × (addrs ≡ pre ++ x ∷ post)
      × NoneIpv4 pre
      × (is_ipv4 x ≡ true)

  IsFirst-cons :
      (a : ℕ) (addrs : List ℕ) (o : Option ℕ)
      → is_ipv4 a ≡ false
      → IsFirst addrs o
      → IsFirst (a ∷ addrs) o
  IsFirst-cons a addrs none e h = (e, h)
  IsFirst-cons a addrs (some x) e (pre, post, p, n, i) = (a ∷ pre, post, ap (◌∷◌ a) p, (e, n), i)

  first_ipv4-IsFirst : (addrs : List ℕ) → IsFirst addrs (first_ipv4 is_ipv4 addrs)
  unfolding first_ipv4
  first_ipv4-IsFirst [] = tt
  first_ipv4-IsFirst (a ∷ addrs) = elim (Bool-cases (is_ipv4 a)) [
    | inl e ↦ rw e ([], addrs, refl, tt, e)
    | inr e ↦ rw e (IsFirst-cons a addrs (first_ipv4 is_ipv4 addrs) e (first_ipv4-IsFirst addrs))
  ]

module _ {A B : Type 0} (P : MainEnd B → Type 0) where
  pub matched-cases :
      (o : Option A) (k : A → MainEnd B)
      → (o ≡ none → P exited)
      → ((a : A) → o ≡ some a → P (k a))
      → P (matched o k)
  matched-cases none k f g = f refl
  matched-cases (some a) k f g = g a refl

  -- A value that is there.
  pub unwrap-some :
      (o : Option A) (k : A → MainEnd B)
      → (a : A) × (o ≡ some a)
      → ((a : A) → o ≡ some a → P (k a))
      → P (unwrap o k)
  unwrap-some none k (a, e) g = absurd (ground arith)
  unwrap-some (some a) k h g = g a refl

  unwrap-cases :
      (o : Option A) (k : A → MainEnd B)
      → (o ≡ none → P panicked)
      → ((a : A) → o ≡ some a → P (k a))
      → P (unwrap o k)
  unwrap-cases none k f g = f refl
  unwrap-cases (some a) k f g = g a refl

  pub or_error-cases :
      (e : MainError) (o : Option A) (k : A → MainEnd B)
      → (o ≡ none → P (main_error e))
      → ((a : A) → o ≡ some a → P (k a))
      → P (or_error e o k)
  or_error-cases e none k f g = f refl
  or_error-cases e (some a) k f g = g a refl

  pub tracked-cases :
      (r : Result A ErrorKind) (k : A → MainEnd B)
      → ((e : ErrorKind) → r ≡ err e → P (main_error (stun e)))
      → ((a : A) → r ≡ ok a → P (k a))
      → P (tracked r k)
  tracked-cases (ok a) k f g = g a refl
  tracked-cases (err e) k f g = f e refl

module _ (u : UdpStack) (rfc : Rfc5389 u.udp.codec ℕ) (p : Process u) where
  open u use {udp}

  module _ (wait : Driver u rfc → Result (Response udp.codec) ErrorKind) (id reply : ℕ) where
    -- A driver on a new channel with one command, the call of a `BINDING` request to `peer`, and no
    -- client left.
    abbrev pub calling : ℕ → udp.inner.State → Driver u rfc
    calling peer t = some (record {
      channel = ok (udp_channel_on u t);
      commands =
          call peer (record { message = udp.codec.new MessageClass.request rfc.binding id }) reply
          ∷ [];
      closed = true;
      forwards = [];
      exits = [];
      results = [];
    })

    -- The call ends with the error of the bind, or with what comes of the driver on the transporter
    -- that was bound.
    abbrev pub Calls : ℕ → ℕ → Result (Response udp.codec) ErrorKind → Type 0
    Calls peer local_addr r =
        ((f : ForeignErrorKind) × (p.bind local_addr ≡ err f) × (r ≡ err (error_from_transport f)))
        ⊎ ((t : udp.inner.State) × (p.bind local_addr ≡ ok t) × (r ≡ wait (calling peer t)))

    execute_call-Calls :
        (peer local_addr : ℕ)
        → Calls peer local_addr (execute_call u rfc p wait id reply peer local_addr)
    unfolding execute_call bound call_binding Client.new Client.client_call Client.send Request.new
    execute_call-Calls peer local_addr = by_case (p.bind local_addr) refl
      where
        by_case :
            (b : Result udp.inner.State ForeignErrorKind)
            → p.bind local_addr ≡ b
            → Calls peer local_addr
                (elim (bound
                  (λ t. call_binding (udp_channel u) rfc peer id reply (udp_channel_on u t))
                  b) [ ok driver ↦ wait driver | err e ↦ err e ])
        by_case (ok t) e = inr (t, e, refl)
        by_case (err f) e = inl (f, e, refl)

    -- The arguments that the user gave, and the text that is made of them.
    abbrev pub Asks : String → Type 0
    Asks text =
        (value_of : String → Option String) × (host : String) × (port : String) × (p.get_matches
            cli_app
          ≡ some value_of)
        × (value_of "HOST" ≡ some host)
        × (value_of "PORT" ≡ some port)
        × (text ≡ host_port host port)

    -- The ends of binding_cli, each with what brings it about.
    pub data CliEnds : MainEnd (Response udp.codec) → Type 0 where
      no_match : p.get_matches cli_app ≡ none → CliEnds exited
      no_local : p.parse "0.0.0.0:0" ≡ none → CliEnds panicked
      unresolved :
          (text : String) → Asks text → p.to_socket_addrs text ≡ none → CliEnds (main_error address)
      none_ipv4 :
          (text : String) (addrs : List ℕ)
          → Asks text
          → p.to_socket_addrs text ≡ some addrs
          → NoneIpv4 p.is_ipv4 addrs
          → CliEnds (main_error failed)
      called :
          (text : String) (addrs : List ℕ) (peer local_addr : ℕ)
          (r : Result (Response udp.codec) ErrorKind)
          → Asks text
          → p.to_socket_addrs text ≡ some addrs
          → IsFirst p.is_ipv4 addrs (some peer)
          → p.parse "0.0.0.0:0" ≡ some local_addr
          → Calls peer local_addr r
          → CliEnds (tracked r printed)

    with_addrs :
        (text : String) (addrs : List ℕ)
        → Asks text
        → p.to_socket_addrs text ≡ some addrs
        → CliEnds (
            or_error failed (first_ipv4 p.is_ipv4 addrs) (λ peer.
              unwrap (p.parse "0.0.0.0:0") (λ local_addr.
                tracked (execute_call u rfc p wait id reply peer local_addr) printed)))
    with_addrs text addrs h a =
        let first = first_ipv4-IsFirst p.is_ipv4 addrs in
        or_error-cases CliEnds failed (first_ipv4 p.is_ipv4 addrs) _
          (λ n. none_ipv4 text addrs h a (rw n at first))
          (λ peer f. unwrap-cases CliEnds (p.parse "0.0.0.0:0") _ no_local (λ local_addr l.
            called text addrs peer local_addr _ h a (rw f at first) l
              (execute_call-Calls peer local_addr)))

    -- If clap keeps its promise on required arguments, binding_cli panics only if the text of the local
    -- address is none. It ends with an error if the text host:port has no addresses or no IPv4 address.
    -- Otherwise it ends with the error of the bind to the local address, or with what comes of a driver
    -- on a new channel, with one command, to send a `BINDING` request to the first IPv4 address: it
    -- prints the response, or returns the error.
    pub binding_cli-CliEnds : IsClap p → CliEnds (binding_cli u rfc p wait id reply)
    unfolding binding_cli
    binding_cli-CliEnds clap =
        matched-cases CliEnds (p.get_matches cli_app) _ no_match (λ value_of m.
          let given = clap.get_matches-AllGiven cli_app value_of m in
          unwrap-some CliEnds (value_of "HOST") _ given.0 (λ host h.
            unwrap-some CliEnds (value_of "PORT") _ given.1.0 (λ port q.
              let asks : Asks (host_port host port) = (value_of, host, port, m, h, q, refl) in
              let text = host_port host port in
              or_error-cases CliEnds address (p.to_socket_addrs text) _ (unresolved text asks)
                (λ addrs a. with_addrs text addrs asks a))))
