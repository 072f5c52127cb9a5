-- ===== src/Stack/Link/Tcp.antt =====
-- Transports that never send again, on a network that loses nothing: `StunTcpTransporter` of
-- src/transport/tcp.rs, and a `FixedPeerTransporter` over it, as in src/server.rs.
use mathlib.Core.List.{map-append}
use rustun.Prelude.{ℕ, ◌≡◌, refl, ◌∙◌, List, [], ◌∷◌, ◌++◌, map, Result, arith}
use rustun.Codec.{StunCodec}
use rustun.Transport.{Transport}
use rustun.Transport.Tcp.{tcp_transport, FixedPeerTransporter, IsFixedPeer, fixed_peer_transport}
use rustun.Stack.Link.{Item, Net, IsNet, Link, IsLink, Gives}

module _ (c : StunCodec) (inner : Transport c (Unit {0})) (n : Net inner) where
  -- A `StunTcpTransporter` sends and receives what its inner transporter does: each request is sent at
  -- once, and nothing is sent again.
  abbrev pub tcp_link : Link (tcp_transport c inner)
  tcp_link = record {
    arrived = n.arrived;
    sent = n.sent;
    arrive = n.arrive;
    Knows = λ peer. Unit {0};
    Quiet = λ now limit s. Unit {0};
    Fresh = λ now s. Unit {0};
    Calm = λ limit s. Unit {0};
  }

  pub tcp_link-IsLink : IsNet inner n → IsLink (tcp_transport c inner) tcp_link
  tcp_link-IsLink laws = record {
    Fresh-Calm = λ now limit s q. tt;
    send_request = λ now limit peer m s known k q r.
        let (s', e, a, b) = laws.start_send now tt m s in (s', e, a, b, tt);
    send_other = λ now limit peer m s known k le q.
        let (s', e, a, b) = laws.start_send now tt m s in (s', e, a, b, tt);
    poll_send =
        λ now limit s le q. let (x, (s', e, a, b)) = laws.poll_send now s in (x, (s', e, a, b, tt));
    recv_none =
        λ now limit s h le q. let (s', e, a, b) = laws.recv_none now s h in (s', e, a, b, tt);
    recv_some = λ now limit x xs s h le q.
        let (s', e, a, b) = laws.recv_some now x xs s h in (s', e, a, b, tt);
    finish = λ now limit peer id s le q. (s, refl, refl, refl, tt);
    arrived-arrive = λ limit x s known q. laws.arrived-arrive x s;
    sent-arrive = laws.sent-arrive;
    Calm-arrive = λ limit x s q. tt;
  }

  -- The same with the fixed peer `p`: the messages of the inner transporter are to and from it.
  module _ {P : Type 0} (f : FixedPeerTransporter (tcp_transport c inner) P) (fixed : IsFixedPeer f)
      (p : P) where
    open f.transport use {State}

    abbrev of_peer : {M : Type 0} → P → Unit {0} × M → P × M
    of_peer p (_, m) = (p, m)

    abbrev pub arrived : State → List (Item c P)
    arrived s = map (of_peer (fixed.peer s)) (n.arrived (fixed.inner_ref s))

    abbrev pub sent : State → List (P × c.Message)
    sent s = map (of_peer (fixed.peer s)) (n.sent (fixed.inner_ref s))

    abbrev pub fixed_link : Link (fixed_peer_transport (tcp_transport c inner) f)
    fixed_link = record {
      arrived = arrived;
      sent = sent;
      arrive = λ (_, m) s. fixed.set_inner (n.arrive (tt, m) (fixed.inner_ref s)) s;
      Knows = λ peer. peer ≡ p;
      Quiet = λ now limit s. Unit {0};
      Fresh = λ now s. fixed.peer s ≡ p;
      Calm = λ limit s. fixed.peer s ≡ p;
    }

    -- The state with another inner transporter.
    moved :
        (x : inner.State) (s : State)
        → fixed.peer s ≡ p
        → (arrived (fixed.set_inner x s) ≡ map (of_peer (fixed.peer s)) (n.arrived x))
          × (sent (fixed.set_inner x s) ≡ map (of_peer (fixed.peer s)) (n.sent x))
          × (fixed.peer (fixed.set_inner x s) ≡ p)
    moved x s q = (
      cc (fixed.peer-set_inner x s, fixed.inner_ref-set_inner x s),
      cc (fixed.peer-set_inner x s, fixed.inner_ref-set_inner x s),
      fixed.peer-set_inner x s ∙ q,
    )

    map-nil : {A B : Type 0} (g : A → B) (l : List A) → map g l ≡ [] → l ≡ []
    map-nil g [] h = refl
    map-nil g (x ∷ l) h = absurd (ground arith)

    -- What an inner transporter has received is from the fixed peer.
    of_peer-cons :
        {M : Type 0} (q : P) (l : List (Unit {0} × M)) (x : P × M) (xs : List (P × M))
        → map (of_peer q) l ≡ x ∷ xs
        → (m : M) × (l' : List (Unit {0} × M)) × (l ≡ (tt, m) ∷ l')
          × (x ≡ (q, m))
          × (xs ≡ map (of_peer q) l')
    of_peer-cons q [] x xs h = absurd (ground arith)
    of_peer-cons q ((_, m) ∷ l) x xs h = (m, l, refl, ground (arith, h), ground (arith, h))

    module _ (laws : IsNet inner n) where
      sends :
          (now limit : ℕ) (peer : P) (m : c.Message) (s : State)
          → peer ≡ p
          → fixed.peer s ≡ p
          → Gives
              (fixed_peer_transport (tcp_transport c inner) f)
              fixed_link
              limit
              tt
              (arrived s)
              (sent s ++ (peer, m) ∷ [])
              (f.transport.start_send now peer m)
              s
      sends now limit peer m s known q =
          let (i, e, a, b) = laws.start_send now tt m (fixed.inner_ref s) in
          let (ar, se, ca) = moved i s q in
          let done_at = fixed.start_send-done now m i s e in
          let g = of_peer {M = c.Message} (fixed.peer s) in
          (
            fixed.set_inner i s,
            cc (done_at, known, q),
            cc (ar, a),
            cc (se, b, map-append g (n.sent (fixed.inner_ref s)) ((tt, m) ∷ []), known, q),
            ca,
          )

      pub fixed_link-IsLink : IsLink (fixed_peer_transport (tcp_transport c inner) f) fixed_link
      fixed_link-IsLink = record {
        Fresh-Calm = λ now limit s q. q;
        send_request = λ now limit peer m s known k q r. sends now limit peer m s known q;
        send_other = λ now limit peer m s known k le q. sends now limit peer m s known q;
        poll_send = λ now limit s le q.
            let (x, (i, e, a, b)) = laws.poll_send now (fixed.inner_ref s) in
            let (ar, se, ca) = moved i s q in
            (
              x,
              (fixed.set_inner i s, fixed.poll_send-done now x i s e, cc (ar, a), cc (se, b), ca),
            );
        recv_none = λ now limit s h le q.
            let (i, e, a, b) =
              laws.recv_none now (fixed.inner_ref s)
                (map-nil _ (n.arrived (fixed.inner_ref s)) h) in
            let (ar, se, ca) = moved i s q in
            (fixed.set_inner i s, fixed.poll_recv-not_ready now i s e, cc (ar, a), cc (se, b), ca);
        recv_some = λ now limit x xs s h le q.
            let (m, l, w, first, rest) =
              of_peer-cons (fixed.peer s) (n.arrived (fixed.inner_ref s)) x xs h in
            let (i, e, a, b) = laws.recv_some now (tt, m) l (fixed.inner_ref s) w in
            let (ar, se, ca) = moved i s q in
            (
              fixed.set_inner i s,
              cc (fixed.poll_recv-some now m i s e, first),
              cc (ar, a, rest),
              cc (se, b),
              ca,
            );
        finish = λ now limit peer id s le q.
            let (ar, se, ca) = moved (fixed.inner_ref s) s q in
            (
              fixed.set_inner (fixed.inner_ref s) s,
              fixed.inner_mut-done _ (fixed.inner_ref s) s refl,
              ar,
              se,
              ca,
            );
        arrived-arrive = λ limit (peer, m) s known q.
            let i = fixed.inner_ref s in
            let g = of_peer {M = Result c.Message c.BrokenMessage} (fixed.peer s) in
            cc (
              (moved (n.arrive (tt, m) i) s q).0,
              laws.arrived-arrive (tt, m) i,
              map-append g (n.arrived i) ((tt, m) ∷ []),
              known,
              q,
            );
        sent-arrive = λ (peer, m) s.
            let i = fixed.inner_ref s in
            let x = n.arrive (tt, m) i in
            cc
              (fixed.peer-set_inner x s, fixed.inner_ref-set_inner x s, laws.sent-arrive (tt, m) i);
        Calm-arrive = λ limit (peer, m) s q. (moved (n.arrive (tt, m) (fixed.inner_ref s)) s q).2;
      }
