-- ===== src/Channel/Poll.antt =====
-- src/channel.rs: `poll_send`, `poll_recv` and `handle_timeout`. A loop is given the number of rounds
-- that it may take.
use rustun.Prelude.{
  ℕ, zero, suc, Option, none, some, ◌∷◌, Result, err, done, running, Async, ready, not_ready, ◌>>=◌,
}
use rustun.Prelude.HashMap.{get, remove, contains_key}
use rustun.Error.{MessageErrorKind, ErrorKind, error_from_transport}
use rustun.Channel.{ChannelEnv, ChannelOp, Key, key_partial_eq, on_transport}
use rustun.Channel.Receive.{RecvMessage, handle_message}

module _ (env : ChannelEnv) where
  open env use {codec, PeerAddr}

  unfoldable pub poll_send : ℕ → ChannelOp env ErrorKind (Async (Unit {0}))
  poll_send now = on_transport env error_from_transport (env.transport.poll_send now)

  -- The body of the loop of `handle_timeout`.
  unfoldable pub time_out : ℕ → Key env → ChannelOp env ErrorKind (Unit {0})
  time_out now (peer, id) ch = elim (get ⦃e = key_partial_eq env⦄ (peer, id) ch.transactions) [
    | none ↦ on_transport env error_from_transport (env.transport.finish_transaction now peer id) ch
    | some (method, tx) ↦
        on_transport env error_from_transport (env.transport.finish_transaction now peer id)
          (record ch {
            transactions = remove ⦃e = key_partial_eq env⦄ (peer, id) ch.transactions;
            exits = (tx, err (some MessageErrorKind.timeout)) ∷ ch.exits;
          })
  ]

  unfoldable pub timeout_round :
      ℕ → ChannelOp env ErrorKind (Unit {0}) → Option (Key env) → ChannelOp env ErrorKind (Unit {0})
  timeout_round now rest none ch = done tt ch
  timeout_round now rest (some key) ch = (time_out now key >>= λ _. rest) ch

  unfoldable pub handle_timeout : ℕ → ℕ → ChannelOp env ErrorKind (Unit {0})
  handle_timeout zero now ch = running
  handle_timeout (suc rounds) now ch =
      let (key, queue) =
        env.timeouts.filter_pop now (λ k. contains_key ⦃e = key_partial_eq env⦄ k ch.transactions)
          ch.timeout_queue in
      timeout_round now (handle_timeout rounds now) key (record ch { timeout_queue = queue })

  -- What `poll_recv` returns: a message from a peer, or the end of the transport.
  abbrev pub Received : Type 0
  Received = Async (Option (PeerAddr × RecvMessage codec))

  -- The loop of `poll_recv` goes on where the message was not for the caller.
  unfoldable pub recv_next :
      PeerAddr
      → ChannelOp env ErrorKind Received
      → Option (RecvMessage codec)
      → ChannelOp env ErrorKind Received
  recv_next peer rest (some item) ch = done (ready (some (peer, item))) ch
  recv_next peer rest none ch = rest ch

  -- The body of the loop of `poll_recv`, on what the transport has received.
  unfoldable pub recv_round :
      ℕ
      → ChannelOp env ErrorKind Received
      → Async (Option (PeerAddr × Result codec.Message codec.BrokenMessage))
      → ChannelOp env ErrorKind Received
  recv_round now rest not_ready ch = done not_ready ch
  recv_round now rest (ready none) ch = done (ready none) ch
  recv_round now rest (ready (some (peer, m))) ch =
      (handle_message env now peer m >>= recv_next peer rest) ch

  unfoldable pub recv_loop : ℕ → ℕ → ChannelOp env ErrorKind Received
  recv_loop zero now ch = running
  recv_loop (suc rounds) now ch =
      (on_transport env error_from_transport (env.transport.poll_recv now)
          >>= recv_round now (recv_loop rounds now))
        ch

  unfoldable pub poll_recv : ℕ → ℕ → ChannelOp env ErrorKind Received
  poll_recv rounds now = handle_timeout rounds now >>= λ _. recv_loop rounds now
