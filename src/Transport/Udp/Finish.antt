-- ===== src/Transport/Udp/Finish.antt =====
-- What the end of a transaction does to the outstanding ones: src/transport/udp.rs.
use rustun.Prelude.{
  subst, sym, ap, Option, ◌>>=◌, ℕ, ◌≡◌, Bool, true, false, not, ◌&&◌, none, some, Option-cases,
  inl, inr, Keeps, Keeps-and_then, arith, nat_beq, nat_beq_iff, nat_partial_eq, is_empty, List, [],
  ◌∷◌,
}
use rustun.Prelude.HashMap.{get, get-insert, get-remove}
use rustun.Prelude.HashSet.{contains, contains-insert, contains-remove}
use rustun.Prelude.HashSet
use rustun.Transport.Peer
use rustun.Transport.Peer.{PeerState}
use rustun.Transport.Udp.{
  UdpEnv, RetransmitTransporter, handle_pending_request, drop_idle, set_peer, start_with,
  send_request, start_transaction, ensure_peer,
}
use rustun.Transport.Udp.Pending.{Splits, pop_pending_request-Splits}
use rustun.Transport.Udp.Send.{finish_with_peer, finish_transaction}

contains-is_empty : (i : ℕ) (l : List ℕ) → is_empty l ≡ true → contains i l ≡ false
contains-is_empty i [] e = ground arith
contains-is_empty i (x ∷ l) e = ground arith

module _ (env : UdpEnv) where
  open env use {codec}

  -- The transaction `id` with `peer` is outstanding.
  abbrev pub outstanding : ℕ → ℕ → RetransmitTransporter env → Bool
  outstanding peer id t = elim (get peer t.peers) [
    | none ↦ false
    | some p ↦ contains id p.transactions
  ]

  module _ (q i : ℕ) (b : Bool) where
    abbrev Same : RetransmitTransporter env → Type 0
    Same s = outstanding q i s ≡ b

    drop_idle-Same :
        (peer : ℕ) (t : RetransmitTransporter env) → Same t → Keeps Same (drop_idle env peer t)
    unfolding drop_idle Peer.is_idle
    drop_idle-Same peer t h = elim (Option-cases (get peer t.peers)) [
      | inl e ↦ rw (Keeps, e) tt
      | inr (p, e) ↦
          rw (Keeps, e)
            (ground (arith, h, e, get-remove peer q t.peers, contains-is_empty i p.transactions))
    ]

    start_with-Same :
        (now peer : ℕ) (m : codec.Message) (p : PeerState codec) (t : RetransmitTransporter env)
        → get peer t.peers ≡ some p
        → contains (codec.transaction_id m) p.transactions ≡ true
        → Same t
        → Keeps Same (start_with env now peer m false p t)
    unfolding start_with send_request Peer.pending Peer.start_transaction
    start_with-Same now peer m p t e c h =
        let p1 : PeerState codec = record p { pending_requests = m ∷ p.pending_requests } in
        let p2 : PeerState codec = record p1 { waiting = true } in
        let p3 : PeerState codec = record p {
          transactions = HashSet.insert (codec.transaction_id m) p.transactions;
          last_transaction_start_time = now;
        } in
        ground (
          arith,
          h,
          e,
          c,
          get-insert peer q p1 t.peers,
          get-insert peer q p2 t.peers,
          get-insert peer q p3 t.peers,
          contains-insert (codec.transaction_id m) i p.transactions,
          nat_beq_iff (codec.transaction_id m) i,
        )

    start_transaction-Same :
        (now peer : ℕ) (m : codec.Message) (p : PeerState codec) (t : RetransmitTransporter env)
        → get peer t.peers ≡ some p
        → contains (codec.transaction_id m) p.transactions ≡ true
        → Same t
        → Keeps Same (start_transaction env now peer m false t)
    unfolding start_transaction ensure_peer
    start_transaction-Same now peer m p t e c h =
        let r : start_transaction env now peer m false t ≡ start_with env now peer m false p t =
          ground (arith, e) in
        subst (λ r. Keeps Same r) (sym r) (start_with-Same now peer m p t e c h)

    -- What was popped is of an outstanding transaction.
    abbrev Found : Option codec.Message → PeerState codec → Type 0
    Found none p = Unit {0}
    Found (some m) p = contains (codec.transaction_id m) p.transactions ≡ true

    pop-Found : (p : PeerState codec) → Found (Peer.pop_pending_request codec p).0 p
    pop-Found p =
        by_case (Peer.pop_pending_request codec p).0 (Peer.pop_pending_request codec p).1
          (pop_pending_request-Splits codec p).0
      where
        by_case :
            (o : Option codec.Message) (p' : PeerState codec)
            → Splits codec p.transactions p.pending_requests (o, p'.pending_requests)
            → Found o p
        by_case none p' s = tt
        by_case (some m) p' (dropped, n, c, e) = c

    released-Same :
        (now peer : ℕ) (o : Option codec.Message) (p p' : PeerState codec)
        (t : RetransmitTransporter env)
        → get peer t.peers ≡ some p
        → p'.transactions ≡ p.transactions
        → Found o p
        → Same t
        → Keeps Same (elim o [
          | none ↦ drop_idle env peer (set_peer env peer p' t)
          | some m ↦
              (start_transaction env now peer m false >>= λ _. drop_idle env peer)
                (set_peer env peer p' t)
        ])
    released-Same now peer none p p' t e u c h =
        drop_idle-Same peer (set_peer env peer p' t)
          (ground (arith, h, e, u, get-insert peer q p' t.peers))
    released-Same now peer (some m) p p' t e u c h =
        let t' = set_peer env peer p' t in
        Keeps-and_then (start_transaction env now peer m false t') (λ _. drop_idle env peer)
          (start_transaction-Same now peer m p' t'
            (ground (arith, get-insert peer peer p' t.peers, nat_beq_iff peer peer))
            (ground (arith, c, u)) (ground (arith, h, e, u, get-insert peer q p' t.peers)))
          (λ _. drop_idle-Same peer)

    handle_pending_request-Same :
        (now peer : ℕ) (t : RetransmitTransporter env)
        → Same t
        → Keeps Same (handle_pending_request env now peer t)
    unfolding handle_pending_request
    handle_pending_request-Same now peer t h = elim (Option-cases (get peer t.peers)) [
      | inl e ↦ rw (Keeps, e) h
      | inr (p, e) ↦
          rw (Keeps, e)
            (released-Same now peer (Peer.pop_pending_request codec p).0 p
              (Peer.pop_pending_request codec p).1 t e
              (ap (λ x. x.transactions) (pop_pending_request-Splits codec p).1) (pop-Found p) h)
    ]

  finish_with_peer-outstanding :
      (peer id q i : ℕ) (t : RetransmitTransporter env)
      → outstanding q i (finish_with_peer env peer id t)
        ≡ (outstanding q i t && not (nat_beq peer q && nat_beq id i))
  unfolding finish_with_peer Peer.finish_transaction
  finish_with_peer-outstanding peer id q i t = elim (Option-cases (get peer t.peers)) [
    | inl e ↦ ground (arith, e)
    | inr (p, e) ↦ ground (
      arith,
      e,
      get-insert peer q (Peer.finish_transaction codec id p) t.peers,
      contains-remove id i p.transactions,
    )
  ]

  -- Whether it returns or fails, `finish_transaction` ends that transaction, and no other one, with
  -- that peer or another: the outstanding transactions are those from before without it.
  pub finish_transaction-outstanding :
      (now peer id q i : ℕ) (t : RetransmitTransporter env)
      → Keeps
          (λ s. outstanding q i s ≡ (outstanding q i t && not (nat_beq peer q && nat_beq id i)))
          (finish_transaction env now peer id t)
  unfolding finish_transaction
  finish_transaction-outstanding now peer id q i t =
      handle_pending_request-Same q i _ now peer (finish_with_peer env peer id t)
        (finish_with_peer-outstanding peer id q i t)
