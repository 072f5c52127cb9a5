-- ===== src/Examples/Fixed.antt =====
-- A `FixedPeerTransporter` that holds its peer and its inner transporter.
use rustun.Prelude.{
  ℕ, refl, Option, some, none, Outcome, done, fail, panic, running, Async, ready, not_ready, Result,
  ap,
}
use rustun.Error.{ForeignErrorKind}
use rustun.Transport.{Transport}
use rustun.Transport.Tcp.{tcp_transport, FixedPeerTransporter, IsFixedPeer}
use rustun.Examples.Toy.{toy_codec}

module _ (inner : Transport toy_codec (Unit {0})) where
  abbrev Fixed : Type 0
  Fixed = ℕ × inner.State

  abbrev Item : Type 0 → Type 0
  Item P = Async (Option (P × Result toy_codec.Message toy_codec.BrokenMessage))

  abbrev lift :
      {A : Type 0} → ℕ → Outcome ForeignErrorKind inner.State A → Outcome ForeignErrorKind Fixed A
  lift p (done a x) = done a (p, x)
  lift p (fail e x) = fail e (p, x)
  lift p (panic y) = panic y
  lift p running = running

  abbrev of_peer : ℕ → Item (Unit {0}) → Item ℕ
  of_peer p not_ready = not_ready
  of_peer p (ready none) = ready none
  of_peer p (ready (some (_, m))) = ready (some (p, m))

  abbrev received :
      ℕ
      → Outcome ForeignErrorKind inner.State (Item (Unit {0}))
      → Outcome ForeignErrorKind Fixed (Item ℕ)
  received p (done a x) = done (of_peer p a) (p, x)
  received p (fail e x) = fail e (p, x)
  received p (panic y) = panic y
  received p running = running

  abbrev pub fixed_on : FixedPeerTransporter (tcp_transport toy_codec inner) ℕ
  fixed_on = record {
    transport = record {
      State = Fixed;
      start_send = λ now peer m s. lift s.0 (inner.start_send now tt m s.1);
      poll_send = λ now s. lift s.0 (inner.poll_send now s.1);
      poll_recv = λ now s. received s.0 (inner.poll_recv now s.1);
    };
    new = λ p q x. (p, x);
    interior_peer = λ s. tt;
    inner_mut = λ m s. lift s.0 (m s.1);
  }

  abbrev pub fixed_on_laws : IsFixedPeer fixed_on
  fixed_on_laws = record {
    peer = λ s. s.0;
    inner_ref = λ s. s.1;
    set_inner = λ x s. (s.0, x);
    peer-new = λ p q x. refl;
    interior_peer-new = λ p q x. refl;
    inner_ref-new = λ p q x. refl;
    peer-set_inner = λ x s. refl;
    interior_peer-set_inner = λ x s. refl;
    inner_ref-set_inner = λ x s. refl;
    start_send-done = λ now m x s e. ap (lift s.0) e;
    poll_send-done = λ now a x s e. ap (lift s.0) e;
    poll_recv-some = λ now m x s e. ap (received s.0) e;
    poll_recv-not_ready = λ now x s e. ap (received s.0) e;
    inner_mut-done = λ m x s e. ap (lift s.0) e;
  }
