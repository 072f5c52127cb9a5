-- ===== src/Transport/Udp/Pending.antt =====
-- What becomes of requests that are kept back: src/transport/udp.rs, `pending`,
-- `pop_pending_request` and `handle_pending_request`.
use rustun.Prelude.{
  ℕ, ◌≡◌, refl, true, false, Option, none, some, List, [], ◌∷◌, ◌++◌, map, done, arith,
  nat_partial_eq, Option-cases, Bool-cases, ap, ◌∙◌, if◌then◌else◌, inl, inr, is_empty, not, ◌&&◌,
}
use rustun.Prelude.HashMap.{get, get-insert, get-remove, insert as map_insert, remove as map_remove}
use rustun.Prelude.HashSet.{contains, contains-insert, contains-remove, insert, remove}
use rustun.Codec.{StunCodec}
use rustun.Transport.Peer
use rustun.Transport.Peer.{PeerState}
use rustun.Transport.Udp.{
  UdpEnv, RetransmitTransporter, handle_pending_request, drop_idle, set_peer,
}
use rustun.Transport.Udp.Send.{finish_with_peer, finish_transaction}

module _ (c : StunCodec) where
  -- None of the messages has its transaction id among `ids`.
  abbrev pub NoneIn : List ℕ → List c.Message → Type 0
  NoneIn ids [] = Unit {0}
  NoneIn ids (m ∷ ms) = (contains (c.transaction_id m) ids ≡ false) × NoneIn ids ms

  abbrev pub ids_of : List c.Message → List ℕ
  ids_of ms = map c.transaction_id ms

  pop_loop-NoneIn :
      (ids : List ℕ) (ms : List c.Message) → NoneIn ids ms → Peer.pop_loop c ids ms ≡ (none, [])
  unfolding Peer.pop_loop
  pop_loop-NoneIn ids [] h = refl
  pop_loop-NoneIn ids (m ∷ ms) h = ground (arith, pop_loop-NoneIn ids ms h.1)

  pub NoneIn-append :
      (ids : List ℕ) (ms : List c.Message) (m : c.Message)
      → NoneIn ids ms
      → contains (c.transaction_id m) ids ≡ false
      → NoneIn ids (ms ++ m ∷ [])
  NoneIn-append ids [] m h e = (e, tt)
  NoneIn-append ids (x ∷ ms) m h e = (h.0, NoneIn-append ids ms m h.1 e)

  pub NoneIn-insert :
      (i : ℕ) (ids : List ℕ) (ms : List c.Message)
      → NoneIn ids ms
      → contains i (ids_of ms) ≡ false
      → NoneIn (insert i ids) ms
  NoneIn-insert i ids [] h e = tt
  NoneIn-insert i ids (m ∷ ms) h e =
      ground (arith, contains-insert i (c.transaction_id m) ids, NoneIn-insert i ids ms h.1)

  pub NoneIn-remove :
      (i : ℕ) (ids : List ℕ) (ms : List c.Message) → NoneIn ids ms → NoneIn (remove i ids) ms
  NoneIn-remove i ids [] h = tt
  NoneIn-remove i ids (m ∷ ms) h =
      ground (arith, contains-remove i (c.transaction_id m) ids, NoneIn-remove i ids ms h.1)

  -- The messages split where `pop_loop` found one.
  abbrev pub Splits : List ℕ → List c.Message → Option c.Message × List c.Message → Type 0
  Splits ids ms (none, rest) = NoneIn ids ms × (rest ≡ [])
  Splits ids ms (some m, rest) =
      (dropped : List c.Message) × NoneIn ids dropped
      × (contains (c.transaction_id m) ids ≡ true)
      × (ms ≡ dropped ++ m ∷ rest)

  Splits-cons :
      (ids : List ℕ) (x : c.Message) (ms : List c.Message) (r : Option c.Message × List c.Message)
      → contains (c.transaction_id x) ids ≡ false
      → Splits ids ms r
      → Splits ids (x ∷ ms) r
  Splits-cons ids x ms (none, rest) e h = ((e, h.0), h.1)
  Splits-cons ids x ms (some m, rest) e (dropped, h0, h1, h2) =
      (x ∷ dropped, (e, h0), h1, ap (◌∷◌ x) h2)

  pop_loop-Splits : (ids : List ℕ) (ms : List c.Message) → Splits ids ms (Peer.pop_loop c ids ms)
  unfolding Peer.pop_loop
  pop_loop-Splits ids [] = (tt, refl)
  pop_loop-Splits ids (x ∷ ms) = elim (Bool-cases (contains (c.transaction_id x) ids)) [
    | inl e ↦ rw e ([], tt, e, refl)
    | inr e ↦ rw e (Splits-cons ids x ms (Peer.pop_loop c ids ms) e (pop_loop-Splits ids ms))
  ]

  -- `pop_pending_request` gives the first pending request whose transaction is outstanding, and
  -- drops the requests before it; where there is no such request, it drops them all. Nothing else of
  -- the peer's state changes.
  pub pop_pending_request-Splits :
      (p : PeerState c)
      → let (m, q) = Peer.pop_pending_request c p in
        Splits p.transactions p.pending_requests (m, q.pending_requests)
        × (q ≡ record p { pending_requests = q.pending_requests })
  unfolding Peer.pop_pending_request
  pop_pending_request-Splits p = (pop_loop-Splits p.transactions p.pending_requests, refl)

module _ (env : UdpEnv) where
  open env use {codec}

  -- The peer's state is gone, or has no pending request.
  abbrev pub NonePending : Option (PeerState codec) → Type 0
  NonePending none = Unit {0}
  NonePending (some p) = p.pending_requests ≡ []

  abbrev pub NonePendingIn : Option (PeerState codec) → Type 0
  NonePendingIn none = Unit {0}
  NonePendingIn (some p) = NoneIn codec p.transactions p.pending_requests

  -- A call that ends in a state with no pending request of the peer, and neither sends nor schedules
  -- anything.
  abbrev pub DropsAll : ℕ → RetransmitTransporter env → RetransmitTransporter env → Type 0
  DropsAll peer t s =
      (s.inner ≡ t.inner) × (s.timeout_queue ≡ t.timeout_queue) × NonePending (get peer s.peers)

  -- The state of `peer` is `p` without its pending requests, or is gone if `p` is idle.
  abbrev pub dropped : ℕ → PeerState codec → RetransmitTransporter env → RetransmitTransporter env
  dropped peer p t =
      let t' = set_peer env peer (record p { pending_requests = [] }) t in
      if is_empty p.transactions && not p.waiting
      then record t' { peers = map_remove peer t'.peers }
      else t'

  dropped-DropsAll :
      (peer : ℕ) (p : PeerState codec) (t : RetransmitTransporter env)
      → DropsAll peer t (dropped peer p t)
  dropped-DropsAll peer p t =
      let p' : PeerState codec = record p { pending_requests = [] } in
      ground
        (arith, get-insert peer peer p' t.peers, get-remove peer peer (map_insert peer p' t.peers))

  pub handle_pending_request-dropped :
      (now peer : ℕ) (p : PeerState codec) (t : RetransmitTransporter env)
      → get peer t.peers ≡ some p
      → NoneIn codec p.transactions p.pending_requests
      → handle_pending_request env now peer t ≡ done tt (dropped peer p t)
  unfolding handle_pending_request drop_idle Peer.pop_pending_request Peer.is_idle
  handle_pending_request-dropped now peer p t e h = ground (
    arith,
    e,
    pop_loop-NoneIn codec p.transactions p.pending_requests h,
    get-insert peer peer (record p { pending_requests = [] }) t.peers,
  )

  pub handle_pending_request-drops :
      (now peer : ℕ) (t : RetransmitTransporter env)
      → NonePendingIn (get peer t.peers)
      → (s : RetransmitTransporter env) × (handle_pending_request env now peer t ≡ done tt s)
        × DropsAll peer t s
  unfolding handle_pending_request
  handle_pending_request-drops now peer t h = elim (Option-cases (get peer t.peers)) [
    | inl e ↦ (t, ground arith, (refl, refl, ground arith))
    | inr (p, e) ↦ (
      dropped peer p t,
      handle_pending_request-dropped now peer p t e (rw e at h),
      dropped-DropsAll peer p t,
    )
  ]

  finish_with_peer-drops :
      (peer id : ℕ) (t : RetransmitTransporter env)
      → NonePendingIn (get peer t.peers)
      → let t' = finish_with_peer env peer id t in
        (t'.inner ≡ t.inner)
        × (t'.timeout_queue ≡ t.timeout_queue)
        × NonePendingIn (get peer t'.peers)
  unfolding finish_with_peer Peer.finish_transaction
  finish_with_peer-drops peer id t h = elim (Option-cases (get peer t.peers)) [
    | inl e ↦ ground arith
    | inr (p, e) ↦ ground (
      arith,
      e,
      get-insert peer peer (Peer.finish_transaction codec id p) t.peers,
      NoneIn-remove codec id p.transactions p.pending_requests,
    )
  ]

  -- When a transaction is finished, and no pending request of that peer has the id of an outstanding
  -- transaction, then the pending requests of the peer are all dropped: none of them is sent, and no
  -- timeout is scheduled for any.
  pub finish_transaction-drops :
      (now peer id : ℕ) (t : RetransmitTransporter env)
      → NonePendingIn (get peer t.peers)
      → (s : RetransmitTransporter env) × (finish_transaction env now peer id t ≡ done tt s)
        × DropsAll peer t s
  unfolding finish_transaction
  finish_transaction-drops now peer id t h =
      let (inner, queue, none_in) = finish_with_peer-drops peer id t h in
      let (s, e, d) =
        handle_pending_request-drops now peer (finish_with_peer env peer id t) none_in in
      (s, e, (d.0 ∙ inner, d.1 ∙ queue, d.2))
