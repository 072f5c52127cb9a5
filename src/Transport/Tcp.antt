-- ===== src/Transport/Tcp.antt =====
-- src/transport/tcp.rs, and the transporter with a fixed peer of src/transport/mod.rs.
use rustun.Prelude.{ℕ, ◌≡◌, Op, done, Async, ready, not_ready, some, Result}
use rustun.Codec.{StunCodec}
use rustun.Error.{ForeignErrorKind}
use rustun.Transport.{Transport, StunTransport}

-- `StunTcpTransporter<T>`: all calls go to the inner transporter, whose peer address is `()`, and a
-- finished transaction needs nothing.
abbrev pub tcp_transport : (c : StunCodec) → Transport c (Unit {0}) → StunTransport c (Unit {0})
tcp_transport c inner = record {
  transport = record {
    State = inner.State;
    start_send = λ now peer item. inner.start_send now tt item;
    poll_send = λ now. inner.poll_send now;
    poll_recv = λ now. inner.poll_recv now;
  };
  finish_transaction = λ now peer id s. done tt s;
}

module _ (c : StunCodec) (inner : Transport c (Unit {0})) where
  -- `StunTcpTransporter::new`: it holds the inner transporter and nothing else.
  unfoldable pub new : inner.State → (tcp_transport c inner).State
  new s = s

  unfoldable pub inner_ref : (tcp_transport c inner).State → inner.State
  inner_ref s = s

  -- `m` is what is done to the inner transporter by the reference that `inner_mut` returns.
  unfoldable pub inner_mut :
      {E A : Type 0} → Op E inner.State A → Op E (tcp_transport c inner).State A
  inner_mut m = m

-- `fibers_transport::FixedPeerTransporter<T, P>`: a transport with the peer address `P` over one with
-- the address `Q`, as far as the code below uses it.
pub record FixedPeerTransporter {c : StunCodec} {Q : Type 0} (t : StunTransport c Q) (P : Type 0)
    : Type 1 where
  pub transport : Transport c P
  pub new : P → Q → t.State → transport.State
  pub interior_peer : transport.State → Q
  pub inner_mut :
      Op ForeignErrorKind t.State (Unit {0}) → Op ForeignErrorKind transport.State (Unit {0})

module _ {c : StunCodec} {Q P : Type 0} (t : StunTransport c Q) (f : FixedPeerTransporter t P) where
  -- The `StunTransport` of a `FixedPeerTransporter`.
  abbrev pub fixed_peer_transport : StunTransport c P
  fixed_peer_transport = record {
    transport = f.transport;
    finish_transaction =
        λ now peer id s. f.inner_mut (t.finish_transaction now (f.interior_peer s) id) s;
  }

-- The documented behaviour of a `FixedPeerTransporter`, seen with the peer and the inner transporter that
-- it was made with: a message to the peer is sent to the interior peer by the inner transporter, and
-- one that is received from the interior peer is received from the peer.
pub record IsFixedPeer {c : StunCodec} {Q P : Type 0} {t : StunTransport c Q}
    (f : FixedPeerTransporter t P) : Type 0 where
  pub peer : f.transport.State → P
  pub inner_ref : f.transport.State → t.State
  pub set_inner : t.State → f.transport.State → f.transport.State
  pub peer-new : (p : P) (q : Q) (x : t.State) → peer (f.new p q x) ≡ p
  pub interior_peer-new : (p : P) (q : Q) (x : t.State) → f.interior_peer (f.new p q x) ≡ q
  pub inner_ref-new : (p : P) (q : Q) (x : t.State) → inner_ref (f.new p q x) ≡ x
  pub peer-set_inner : (x : t.State) (s : f.transport.State) → peer (set_inner x s) ≡ peer s
  pub interior_peer-set_inner :
      (x : t.State) (s : f.transport.State) → f.interior_peer (set_inner x s) ≡ f.interior_peer s
  pub inner_ref-set_inner : (x : t.State) (s : f.transport.State) → inner_ref (set_inner x s) ≡ x
  pub start_send-done :
      (now : ℕ) (m : c.Message) (x : t.State) (s : f.transport.State)
      → t.start_send now (f.interior_peer s) m (inner_ref s) ≡ done tt x
      → f.transport.start_send now (peer s) m s ≡ done tt (set_inner x s)
  pub poll_send-done :
      (now : ℕ) (a : Async (Unit {0})) (x : t.State) (s : f.transport.State)
      → t.poll_send now (inner_ref s) ≡ done a x
      → f.transport.poll_send now s ≡ done a (set_inner x s)
  pub poll_recv-some :
      (now : ℕ) (m : Result c.Message c.BrokenMessage) (x : t.State) (s : f.transport.State)
      → t.poll_recv now (inner_ref s) ≡ done (ready (some (f.interior_peer s, m))) x
      → f.transport.poll_recv now s ≡ done (ready (some (peer s, m))) (set_inner x s)
  pub poll_recv-not_ready :
      (now : ℕ) (x : t.State) (s : f.transport.State)
      → t.poll_recv now (inner_ref s) ≡ done not_ready x
      → f.transport.poll_recv now s ≡ done not_ready (set_inner x s)
  pub inner_mut-done :
      (m : Op ForeignErrorKind t.State (Unit {0})) (x : t.State) (s : f.transport.State)
      → m (inner_ref s) ≡ done tt x
      → f.inner_mut m s ≡ done tt (set_inner x s)
