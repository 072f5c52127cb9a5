-- ===== src/Transport/Peer.antt =====
-- src/transport/udp.rs, `TimeoutEntry` and `PeerState`: what the UDP transporter keeps for a peer.
use rustun.Prelude.{
  ℕ, ◌*◌, ◌^◌, ◌++◌, Bool, false, not, ◌&&◌, Option, none, some, List, [], ◌∷◌, ltb, nat_partial_eq,
  if◌then◌else◌, is_empty,
}
use rustun.Prelude.HashSet
use rustun.Codec.{StunCodec}
use rustun.Transport.{TimeoutQueue}

-- The time of `UNIX_EPOCH`.
abbrev pub unix_epoch : ℕ
unix_epoch = 0

-- The first number of nanoseconds that a `Duration` (64 bits of seconds) cannot hold.
abbrev pub duration_limit : ℕ
duration_limit = 2 ^ 64 * 1_000_000_000

-- `rto * 2`, which panics (`none`) on overflow.
unfoldable pub double : ℕ → Option ℕ
double d = if ltb (d * 2) duration_limit then some (d * 2) else none

pub data TimeoutEntry (c : StunCodec) : Type 0 where
  retransmit : (peer : ℕ) (request : c.Message) (next_rto : ℕ) → TimeoutEntry c
  expire_rto_cache : (peer : ℕ) (cached_rto : ℕ) → TimeoutEntry c
  allow_next_request : (peer : ℕ) → TimeoutEntry c

pub record PeerState (c : StunCodec) : Type 0 where
  pub peer : ℕ
  pub transactions : List ℕ
  pub pending_requests : List c.Message
  pub waiting : Bool
  pub last_transaction_start_time : ℕ
  pub current_rto : ℕ
  pub cached_rto : ℕ

module _ (c : StunCodec) where
  unfoldable pub new : ℕ → ℕ → PeerState c
  new peer rto = record {
    peer = peer;
    transactions = [];
    pending_requests = [];
    waiting = false;
    last_transaction_start_time = unix_epoch;
    current_rto = rto;
    cached_rto = rto;
  }

  unfoldable pub pending : c.Message → Bool → PeerState c → PeerState c
  pending request first p =
      if first
      then record p { pending_requests = p.pending_requests ++ request ∷ [] }
      else record p { pending_requests = request ∷ p.pending_requests }

  unfoldable pub is_idle : PeerState c → Bool
  is_idle p = is_empty p.transactions && not p.waiting

  -- The loop of `pop_pending_request` over the queue of pending requests.
  unfoldable pub pop_loop : List ℕ → List c.Message → Option c.Message × List c.Message
  pop_loop ids [] = (none, [])
  pop_loop ids (m ∷ ms) =
      if HashSet.contains (c.transaction_id m) ids then (some m, ms) else pop_loop ids ms

  unfoldable pub pop_pending_request : PeerState c → Option c.Message × PeerState c
  pop_pending_request p =
      let (request, rest) = pop_loop p.transactions p.pending_requests in
      (request, record p { pending_requests = rest })

  -- The state, the entry and its delay; `none` is a panic.
  unfoldable pub start_transaction :
      ℕ → c.Message → PeerState c → Option (PeerState c × TimeoutEntry c × ℕ)
  start_transaction now request p = elim (double p.cached_rto) [
    | none ↦ none
    | some next ↦ some (
      record p {
        transactions = HashSet.insert (c.transaction_id request) p.transactions;
        last_transaction_start_time = now;
      },
      retransmit p.peer request next,
      p.cached_rto,
    )
  ]

  unfoldable pub finish_transaction : ℕ → PeerState c → PeerState c
  finish_transaction id p = record p { transactions = HashSet.remove id p.transactions }

  module _ (q : TimeoutQueue (TimeoutEntry c)) where
    -- The request to send again, the state and the queue; `none` is a panic.
    unfoldable pub retransmit_request :
        ℕ
        → c.Message
        → ℕ
        → ℕ
        → q.Queue
        → PeerState c
        → Option (Option c.Message × PeerState c × q.Queue)
    retransmit_request now request rto rto_cache_duration queue p =
        if HashSet.contains (c.transaction_id request) p.transactions
        then (elim (double rto) [
          | none ↦ none
          | some next ↦
              let queue' = q.push now (retransmit p.peer request next) rto queue in
              if ltb p.cached_rto rto
              then some (
                some request,
                record p { cached_rto = rto },
                q.push now (expire_rto_cache p.peer rto) rto_cache_duration queue',
              )
              else some (some request, p, queue')
        ])
        else some (none, p, queue)
