-- ===== src/Stack/Session/Run.antt =====
-- The network tests of src/lib.rs as runs. The executor polls the client, the server and the client, and
-- between the polls the network delivers what was sent.
use rustun.Prelude.{
  ℕ, Option, none, some, List, [], ◌∷◌, Result, ok, err, done, PartialEq, ◌==◌, if◌then◌else◌,
}
use rustun.Codec.{StunCodec}
use rustun.Error.{ErrorKind}
use rustun.Message.ErrorResponse.{Response}
use rustun.Client.{ChannelDriver, heard}
use rustun.Client.Driver as Client
use rustun.Server.Driver
use rustun.Server.Binding.{Rfc5389}
use rustun.Server.Answers.{binding_server}
use rustun.Stack.Link.{Item}
use rustun.Stack.Session.{
  Endpoint, channel_at, client_receives, client_sent, ServerDriver, server_receives, server_sent,
}

-- What the network makes of the messages that were sent: those to the address `to` arrive there, as from
-- the address `from`.
abbrev pub carried :
    (c : StunCodec) {P Q : Type 0} ⦃eq : PartialEq P⦄
    → P
    → Q
    → List (P × c.Message)
    → List (Item c Q)
carried c to from [] = []
carried c to from ((peer, m) ∷ rest) =
    if peer == to then (from, ok m) ∷ carried c to from rest else carried c to from rest

abbrev pub deliver : {X D : Type 0} → (X → D → D) → List X → D → D
deliver receives [] d = d
deliver receives (x ∷ xs) d = deliver receives xs (receives x d)

module _ {c : StunCodec} (a b : Endpoint c) (Future : Type 0) (rfc : Rfc5389 c b.PeerAddr) where
  abbrev pub to_server :
      a.PeerAddr
      → b.PeerAddr
      → ChannelDriver (channel_at a)
      → ServerDriver b Future rfc
      → ServerDriver b Future rfc
  to_server server_addr client_addr d e =
      deliver (server_receives b Future rfc)
        (carried c ⦃eq = a.peer_partial_eq⦄ server_addr client_addr (client_sent a d)) e

  abbrev pub to_client :
      a.PeerAddr
      → b.PeerAddr
      → ServerDriver b Future rfc
      → ChannelDriver (channel_at a)
      → ChannelDriver (channel_at a)
  to_client server_addr client_addr e d =
      deliver (client_receives a)
        (carried c ⦃eq = b.peer_partial_eq⦄ client_addr server_addr (server_sent b Future rfc e)) d

  -- What the caller has heard after the three polls.
  unfoldable pub exchange :
      a.PeerAddr
      → b.PeerAddr
      → (reply fuel rounds t1 t2 t3 : ℕ) → Option (ChannelDriver (channel_at a))
      → ServerDriver b Future rfc
      → Option (Result (Response c) ErrorKind)
  unfolding heard
  exchange server_addr client_addr reply fuel rounds t1 t2 t3 none e = none
  exchange server_addr client_addr reply fuel rounds t1 t2 t3 (some d) e =
      elim (Client.poll (channel_at a) fuel rounds t1 d) [
        | done _ d1 ↦
            (elim (Driver.poll (binding_server (channel_at b) Future rfc) fuel rounds t2
              (to_server server_addr client_addr d1 e)) [
                | done _ e1 ↦
                    (elim (Client.poll (channel_at a) fuel rounds t3
                      (to_client server_addr client_addr e1 d1)) [
                        | done _ d2 ↦ heard (channel_at a) reply d2
                        | _ ↦ none
                      ])
                | _ ↦ none
              ])
        | _ ↦ none
      ]

-- What a test ends with: it has passed, its assertion has failed, it has returned an error, or it still
-- waits for the response.
pub data TestEnd : Type 0 where
  passed : TestEnd
  assertion_failed : TestEnd
  error : ErrorKind → TestEnd
  waiting : TestEnd

-- `track!(..)?`.
abbrev pub or_error : {A : Type 0} → Result A ErrorKind → (A → TestEnd) → TestEnd
or_error (ok a) k = k a
or_error (err e) k = error e

-- `track!(fibers_global::execute(response))?` and `assert!(response.is_ok())`.
abbrev pub asserts : (c : StunCodec) → Option (Result (Response c) ErrorKind) → TestEnd
asserts c none = waiting
asserts c (some (err e)) = error e
asserts c (some (ok (err _))) = assertion_failed
asserts c (some (ok (ok _))) = passed
