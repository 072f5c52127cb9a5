-- ===== src/Channel/Timed.antt =====
-- Each outstanding transaction has a timeout: src/channel.rs.
use rustun.Prelude.{ℕ, ◌+◌, Bool, err, subst, sym, ◌≤◌, ◌≡◌, true, none, some, Option, Keeps, arith}
use rustun.Prelude.HashMap.{contains_key, get-remove, get-insert}
use rustun.Error.{MessageErrorKind}
use rustun.Message.Request.{Request}
use rustun.Transport.{IsTimeoutQueue, popped}
use rustun.Channel.{ChannelEnv, Channel, Key, Exit, key_partial_eq, call}
use rustun.Channel.Steps.{Closed, end_with, pop_timeout, Unmatched}

module _ (env : ChannelEnv) (laws : IsTimeoutQueue env.timeouts) (k : Key env) where
  open env use {codec, PeerAddr}

  abbrev eq : Key env → Key env → Bool
  eq i j = (key_partial_eq env).eq i j

  abbrev has : Channel env → Bool
  has ch = contains_key ⦃e = key_partial_eq env⦄ k ch.transactions

  -- If the key is of an outstanding transaction, it stands in the timeout queue.
  abbrev pub Timed : Channel env → Type 0
  Timed ch = has ch ≡ true → 1 ≤ laws.count (λ j. eq j k) ch.timeout_queue

  pub call-Timed :
      (now : ℕ) (peer : PeerAddr) (request : Request codec) (ch : Channel env)
      → Timed ch
      → Keeps Timed (call env now peer request ch)
  unfolding call
  call-Timed now peer request ch p =
      let i : Key env = (peer, codec.transaction_id request.message) in
      let v : ℕ × ℕ = (codec.method request.message, ch.next_handle) in
      ground (
        arith,
        p,
        get-insert ⦃e = key_partial_eq env⦄ i k v ch.transactions,
        laws.count-push (λ j. eq j k) now i ch.request_timeout ch.timeout_queue,
      )

  ends-Timed :
      (ch : Channel env) (j : Key env) (tx : ℕ) (x : Exit codec)
      → Timed ch
      → Timed (end_with env j tx x ch)
  ends-Timed ch j tx x p h =
      ground (arith, p, get-remove ⦃e = key_partial_eq env⦄ j k ch.transactions)

  pop-count :
      (now : ℕ) (ch : Channel env) (o : Option (Key env)) (q : env.timeouts.Queue)
      → pop_timeout env now ch ≡ (o, q)
      → has ch ≡ true
      → popped (λ j. eq j k) o + laws.count (λ j. eq j k) q
        ≡ laws.count (λ j. eq j k) ch.timeout_queue
  pop-count now ch o q e h = rw e at (
      laws.count-filter_pop (λ j. eq j k)
        (λ j. contains_key ⦃e = key_partial_eq env⦄ j ch.transactions) now ch.timeout_queue
        (λ j ej.
          subst (λ j. contains_key ⦃e = key_partial_eq env⦄ j ch.transactions ≡ true)
            (sym (((key_partial_eq env).eq_iff j k).0 ej)) h))

  pub Timed-Closed : Closed env Timed
  Timed-Closed = record {
    set_transporter = λ ch t p. p;
    pops = λ now ch o q e u p. pops-Timed now ch o q e u p;
    times_out = λ now ch j q method tx e found p. times_out-Timed now ch j q tx e p;
    ends = λ ch j method tx x found y p. ends-Timed ch j tx x p;
  }
    where
      pops-Timed :
          (now : ℕ) (ch : Channel env) (o : Option (Key env)) (q : env.timeouts.Queue)
          → pop_timeout env now ch ≡ (o, q)
          → Unmatched env o ch
          → Timed ch
          → Timed (record ch { timeout_queue = q })
      pops-Timed now ch none q e u p h =
          let c = pop-count now ch none q e h in let b = p h in omega arith
      pops-Timed now ch (some j) q e u p h =
          let c = pop-count now ch (some j) q e h in
          let b = p h in ground (arith, c, b, u, (key_partial_eq env).eq_iff j k)

      times_out-Timed :
          (now : ℕ) (ch : Channel env) (j : Key env) (q : env.timeouts.Queue) (tx : ℕ)
          → pop_timeout env now ch ≡ (some j, q)
          → Timed ch
          → Timed (
              end_with env j tx
                (err (some MessageErrorKind.timeout))
                (record ch { timeout_queue = q }))
      times_out-Timed now ch j q tx e p h =
          let i = (key_partial_eq env).eq_iff j k in
          let g = get-remove ⦃e = key_partial_eq env⦄ j k ch.transactions in
          let h' : has ch ≡ true = ground (arith, g, h) in
          let c = pop-count now ch (some j) q e h' in let b = p h' in ground (arith, c, b, g, h, i)
