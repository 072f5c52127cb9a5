-- ===== src/Stack/Link/Udp/Calm.antt =====
-- `StunUdpTransporter` on a network that loses nothing: src/transport/udp.rs. Where nothing is due,
-- nothing is sent again.
use rustun.Prelude.{
  ℕ, suc, ◌≤◌, ◌≡◌, refl, true, Option, none, some, [], done, nat_partial_eq, arith, nat_beq_iff,
  Async, Bool-cases, Option-cases, inl, inr,
}
use rustun.Prelude.HashMap.{get, insert, remove, get-insert}
use rustun.Codec.{MessageClass}
use rustun.Message.Laws.{class_beq_iff}
use rustun.Transport.{IsTimedQueue, popped}
use rustun.Transport.Peer
use rustun.Transport.Peer.{PeerState, TimeoutEntry, duration_limit, double, retransmit}
use rustun.Transport.Udp.{
  UdpEnv, RetransmitTransporter, UdpOp, poll_timeout, drop_idle, handle_pending_request, is_live,
}
use rustun.Transport.Udp.Send
use rustun.Transport.Udp.Send.{udp_transport, poll_round, poll_loop, finish_with_peer}
use rustun.Stack.Link.{Net, IsNet, IsLink, Gives}
use rustun.Stack.Link.Udp.{
  NonePending-remove, NonePending-insert, NonePending-get, IsCalm, udp_link, send_request-Gives,
}

module _ (env : UdpEnv) (timed : IsTimedQueue env.timeouts) (rounds : ℕ) (n : Net env.inner)
    (laws : IsNet env.inner n) where
  open env use {codec}

  poll_round-none :
      (now : ℕ) (rest : UdpOp env (Unit {0})) (o : Option (TimeoutEntry codec))
      (t : RetransmitTransporter env)
      → popped (λ _. true) o ≡ 0
      → poll_round env now rest o t ≡ done tt t
  unfolding poll_round
  poll_round-none now rest none t h = refl
  poll_round-none now rest (some e) t h = absurd (ground arith)

  -- Where nothing is due, nothing is sent again.
  poll_send-Gives :
      (now limit : ℕ) (t : RetransmitTransporter env)
      → now ≤ limit
      → IsCalm env timed rounds n limit t
      → (a : Async (Unit {0})) × Gives
          (udp_transport env (suc rounds))
          (udp_link env timed rounds n)
          limit
          a
          (n.arrived t.inner)
          (n.sent t.inner)
          (Send.poll_send env (suc rounds) now)
          t
  unfolding Send.poll_send poll_loop poll_timeout
  poll_send-Gives now limit t le (h, d) =
      let (o, q) = env.timeouts.filter_pop now (is_live env t) t.timeout_queue in
      let few = timed.due-filter_pop limit (λ _. true) (is_live env t) now t.timeout_queue le in
      let s : RetransmitTransporter env = record t { timeout_queue = q } in
      let e = poll_round-none now (poll_loop env rounds now) o s (omega arith) in
      let (x, (i, f, a, b)) = laws.poll_send now t.inner in
      (x, (record s { inner = i }, ground (arith, e, f), a, b, (h, omega arith)))

  drop_idle-Gives :
      (limit peer : ℕ) (p : PeerState codec) (t : RetransmitTransporter env)
      → get peer t.peers ≡ some p
      → IsCalm env timed rounds n limit t
      → Gives
          (udp_transport env (suc rounds))
          (udp_link env timed rounds n)
          limit
          tt
          (n.arrived t.inner)
          (n.sent t.inner)
          (drop_idle env peer)
          t
  unfolding drop_idle
  drop_idle-Gives limit peer p t g (h, d) = elim (Bool-cases (Peer.is_idle codec p)) [
    | inl e ↦ (
      record t { peers = remove peer t.peers },
      ground (arith, g, e),
      refl,
      refl,
      (NonePending-remove env timed rounds n peer t.peers h, d),
    )
    | inr e ↦ (t, ground (arith, g, e), refl, refl, (h, d))
  ]

  finish-known :
      (now limit peer id : ℕ) (p : PeerState codec) (t : RetransmitTransporter env)
      → get peer t.peers ≡ some p
      → IsCalm env timed rounds n limit t
      → Gives
          (udp_transport env (suc rounds))
          (udp_link env timed rounds n)
          limit
          tt
          (n.arrived t.inner)
          (n.sent t.inner)
          (Send.finish_transaction env now peer id)
          t
  unfolding Send.finish_transaction finish_with_peer handle_pending_request Peer.pop_pending_request
      Peer.pop_loop Peer.finish_transaction
  finish-known now limit peer id p t g (h, d) =
      let finished = Peer.finish_transaction codec id p in
      let e = NonePending-get env timed rounds n peer p t.peers h g in
      let s : RetransmitTransporter env = record t {
        peers =
            insert peer (record finished { pending_requests = [] }) (insert peer finished t.peers);
      } in
      let (s', f, a, b, calm) =
        drop_idle-Gives limit peer (record finished { pending_requests = [] }) s
          (ground (
            arith,
            get-insert peer peer (record finished { pending_requests = [] })
                (insert peer finished t.peers),
            nat_beq_iff peer peer,
          ))
          (
            NonePending-insert env timed rounds n peer (record finished { pending_requests = [] })
                (insert peer finished t.peers) refl
                (NonePending-insert env timed rounds n peer finished t.peers e h),
            d,
          ) in
      (
        s',
        ground (arith, g, e, f, get-insert peer peer finished t.peers, nat_beq_iff peer peer),
        a,
        b,
        calm,
      )

  -- With none kept back, nothing is sent when a transaction is finished.
  finish-Gives :
      (now limit peer id : ℕ) (t : RetransmitTransporter env)
      → IsCalm env timed rounds n limit t
      → Gives
          (udp_transport env (suc rounds))
          (udp_link env timed rounds n)
          limit
          tt
          (n.arrived t.inner)
          (n.sent t.inner)
          (Send.finish_transaction env now peer id)
          t
  unfolding Send.finish_transaction finish_with_peer handle_pending_request
  finish-Gives now limit peer id t calm = elim (Option-cases (get peer t.peers)) [
    | inl e ↦ (t, ground (arith, e), refl, refl, calm)
    | inr (p, e) ↦ finish-known now limit peer id p t e calm
  ]

  pub udp_link-IsLink : IsLink (udp_transport env (suc rounds)) (udp_link env timed rounds n)
  unfolding Send.start_send Send.poll_recv
  udp_link-IsLink = record {
    Fresh-Calm = λ now limit t (k, empty, _, _, _).
        (ground (arith, k), ground (arith, timed.due-later limit (λ _. true) t.timeout_queue));
    send_request =
        λ now limit peer m t known. send_request-Gives env timed rounds n laws now limit peer m t;
    send_other = λ now limit peer m t known k le calm.
        let (i, e, a, b) = laws.start_send now peer m t.inner in
        (
          record t { inner = i },
          ground (arith, e, k, (class_beq_iff (codec.class m) MessageClass.request).0),
          a,
          b,
          calm,
        );
    poll_send = poll_send-Gives;
    recv_none = λ now limit t h le calm.
        let (i, e, a, b) = laws.recv_none now t.inner h in
        (record t { inner = i }, ground (arith, e), a, b, calm);
    recv_some = λ now limit x xs t h le calm.
        let (i, e, a, b) = laws.recv_some now x xs t.inner h in
        (record t { inner = i }, ground (arith, e), a, b, calm);
    finish = λ now limit peer id t le calm. finish-Gives now limit peer id t calm;
    arrived-arrive = λ limit x t known calm. laws.arrived-arrive x t.inner;
    sent-arrive = λ x t. laws.sent-arrive x t.inner;
    Calm-arrive = λ limit x t calm. calm;
  }
