-- ===== src/Server/Listens.antt =====
-- The connections that a TCP server takes: src/server.rs, `TcpServer::poll`.
use rustun.Prelude.{
  ℕ, zero, suc, ◌<◌, ◌≡◌, refl, none, some, List, [], ◌∷◌, Outcome, done, fail, Async, ready,
  not_ready, length, arith,
}
use rustun.Error.{ErrorKind, ForeignErrorKind, error_from_transport}
use rustun.Server
use rustun.Server.{HandleMessage, HandlerDriver}
use rustun.Channel
use rustun.Transport.Tcp
use rustun.Transport.Tcp.{IsFixedPeer}
use rustun.Server.Servers.{TcpStack, TcpEnv, State, tcp_server, accept, tcp_next, tcp_poll}

module _ (k : TcpStack) {Future : Type 0} {handler : HandleMessage k.codec k.PeerAddr Future}
    (tcp : TcpEnv k Future handler) where
  -- What the listener says after its streams: that there is none for now, that it has ended, or an
  -- error.
  pub data Closing : Type 0 where
    idle : Closing
    ended : Closing
    broken : ForeignErrorKind → Closing

  -- Polls of the listener at the time `now` give the streams, in their order, and then the closing.
  pub data Listens (now : ℕ)
      : List k.inner.State → Closing → tcp.Listener → tcp.Listener → Type 0 where
    is_idle : {l l' : tcp.Listener} → tcp.poll now l ≡ done not_ready l' → Listens now [] idle l l'
    has_ended :
        {l l' : tcp.Listener} → tcp.poll now l ≡ done (ready none) l' → Listens now [] ended l l'
    is_broken :
        {l l' : tcp.Listener} (e : ForeignErrorKind)
        → tcp.poll now l ≡ fail e l'
        → Listens now [] (broken e) l l'
    gives :
        {ss : List k.inner.State} {end : Closing} {l l' l'' : tcp.Listener} (s : k.inner.State)
        → tcp.poll now l ≡ done (ready (some s)) l'
        → Listens now ss end l' l''
        → Listens now (s ∷ ss) end l l''

  -- A driver for each of the streams is given to the spawner, in their order.
  abbrev pub accept_all : List k.inner.State → State k tcp → State k tcp
  accept_all [] s = s
  accept_all (x ∷ xs) s = accept_all xs (accept k tcp x s)

  -- What a poll of the server then returns.
  abbrev pub closed_by : Closing → State k tcp → Outcome ErrorKind (State k tcp) (Async ⊥)
  closed_by idle s = done not_ready s
  closed_by ended s = fail ErrorKind.other s
  closed_by (broken e) s = fail (error_from_transport e) s

  accept_all-listener :
      (ss : List k.inner.State) (l l' : tcp.Listener) (s : State k tcp)
      → record (accept_all ss (record s { listener = l })) { listener = l' }
        ≡ record (accept_all ss s) { listener = l' }
  unfolding accept
  accept_all-listener [] l l' s = refl
  accept_all-listener (x ∷ ss) l l' s = accept_all-listener ss l l' (accept k tcp x s)

  pub tcp_poll-accept_all :
      (rounds now : ℕ) (ss : List k.inner.State) (end : Closing) (l : tcp.Listener)
      (s : State k tcp)
      → Listens now ss end s.listener l
      → length ss < rounds
      → tcp_poll k tcp rounds now s ≡ closed_by end (record (accept_all ss s) { listener = l })
  unfolding tcp_poll tcp_next accept
  tcp_poll-accept_all zero now ss end l s h lt = absurd (omega arith)
  tcp_poll-accept_all (suc rounds) now [] idle l s (is_idle e) lt = ground (arith, e)
  tcp_poll-accept_all (suc rounds) now [] ended l s (has_ended e) lt = ground (arith, e)
  tcp_poll-accept_all (suc rounds) now [] (broken f) l s (is_broken _ e) lt = ground (arith, e)
  tcp_poll-accept_all (suc rounds) now (x ∷ ss) end l s (gives {l' = l'} _ e h) lt = ground (
    arith,
    e,
    tcp_poll-accept_all rounds now ss end l (accept k tcp x (record s { listener = l' })) h
        (omega arith),
    accept_all-listener ss l' l (accept k tcp x s),
  )

  module _ (fixed : IsFixedPeer k.fixed) where
    -- The driver has the handler `h`, and a new channel on a transporter that is made of that of the
    -- connection, with its `peer_addr` as the fixed peer.
    pub record StartedOn (transporter : k.inner.State) (h : handler.State)
        (d : HandlerDriver (tcp_server k Future handler)) : Type 0 where
      pub handler_given : d.handler ≡ h
      pub none_spawned : d.spawned ≡ []
      pub none_waits : d.response_rx ≡ []
      pub none_outstanding : d.channel.transactions ≡ []
      pub none_ended : d.channel.exits ≡ []
      pub none_scheduled : d.channel.timeout_queue ≡ k.timeouts.new
      pub of_peer : fixed.peer d.channel.transporter ≡ tcp.peer_addr transporter
      pub on_inner : fixed.inner_ref d.channel.transporter ≡ transporter

    -- For each of the transporters, in their order, the factory, which goes from its first state to its
    -- second, makes a handler, and a driver with it is started on the transporter: the first list of
    -- drivers, the latest first, becomes the second.
    pub data Starts
        : List k.inner.State
          → tcp.Factory
          → tcp.Factory
          → List (HandlerDriver (tcp_server k Future handler))
          → List (HandlerDriver (tcp_server k Future handler))
          → Type 0 where
      none_left :
          {f : tcp.Factory} {ds : List (HandlerDriver (tcp_server k Future handler))}
          → Starts [] f f ds ds
      starts :
          {transporter : k.inner.State} {ts : List k.inner.State} {f f' f'' : tcp.Factory}
          {h : handler.State} {d : HandlerDriver (tcp_server k Future handler)}
          {ds ds' : List (HandlerDriver (tcp_server k Future handler))}
          → tcp.create f ≡ (h, f')
          → StartedOn transporter h d
          → Starts ts f' f'' (d ∷ ds) ds'
          → Starts (transporter ∷ ts) f f'' ds ds'

    accept_all-Starts :
        (ts : List k.inner.State) (s : State k tcp)
        → Starts ts s.handler_factory
            (accept_all ts s).handler_factory
            s.spawned
            (accept_all ts s).spawned
    unfolding accept Server.new Channel.new Channel.finish Tcp.new
    accept_all-Starts [] s = none_left
    accept_all-Starts (x ∷ ts) s =
        starts refl
          (record {
            handler_given = refl;
            none_spawned = refl;
            none_waits = refl;
            none_outstanding = refl;
            none_ended = refl;
            none_scheduled = refl;
            of_peer = fixed.peer-new (tcp.peer_addr x) tt x;
            on_inner = fixed.inner_ref-new (tcp.peer_addr x) tt x;
          })
          (accept_all-Starts ts (accept k tcp x s))

    -- A poll of a TCP server that is given more rounds than its listener has connections gives the
    -- spawner a driver for each of them, in their order, and nothing else: each with the next handler
    -- of the factory, and with a new channel on the connection's transporter, whose `peer_addr` is the
    -- fixed peer. It then returns that it is not ready, or ends with the `Other` error if the listener
    -- has ended, and else with the error of the listener.
    pub tcp_poll-Listens :
        (rounds now : ℕ) (ts : List k.inner.State) (end : Closing) (l : tcp.Listener)
        (s : State k tcp)
        → Listens now ts end s.listener l
        → length ts < rounds
        → (s' : State k tcp) × (tcp_poll k tcp rounds now s ≡ closed_by end s')
          × Starts ts s.handler_factory s'.handler_factory s.spawned s'.spawned
          × (s'.listener ≡ l)
    tcp_poll-Listens rounds now ts end l s h lt = (
      record (accept_all ts s) { listener = l },
      tcp_poll-accept_all rounds now ts end l s h lt,
      accept_all-Starts ts s,
      refl,
    )
