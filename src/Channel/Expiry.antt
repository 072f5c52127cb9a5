-- ===== src/Channel/Expiry.antt =====
-- When the requests of a channel expire: src/channel.rs, `call`, `poll_recv` and `handle_timeout`.
use rustun.Prelude.{
  to_nat, ltb, nat_beq, ℕ, zero, suc, ◌+◌, ◌≤◌, ◌≡◌, refl, ap, subst, sym, true, false, Bool,
  length, [], ◌∷◌, Option, none, some, err, done, Keeps, and_then-done, arith,
}
use rustun.Prelude.HashMap.{count_values, HashMap, contains_key, get-remove}
use rustun.Error.{MessageErrorKind, ErrorKind}
use rustun.Message.Request.{Request}
use rustun.Transport.{IsTimedQueue}
use rustun.Channel.{
  ChannelEnv, Channel, ChannelOp, ChannelBuilder, Key, Exit, key_partial_eq, call, finish,
  outstanding_transactions,
}
use rustun.Channel.Poll.{Received, timeout_round, time_out, handle_timeout, recv_loop, poll_recv}
use rustun.Channel.Steps.{Closed, Closed-Preserved, pop_timeout, end_with}
use rustun.Channel.Steps.Polls.{handle_timeout-Keeps, recv_loop-Keeps}
use rustun.Channel.Timed.{Timed, Timed-Closed}
use rustun.Channel.Replies.{count_exits}
use rustun.Channel.Reach
use rustun.Channel.Reach.{
  Use, call_use, cast_use, reply_use, poll_send_use, poll_recv_use, use_channel, use_channel-Keeps,
  Reach-Timed, Reach-Answered, Reach-Answered,
}

module _ (env : ChannelEnv) where
  -- If `u` is a call, its request times out at `limit` or before.
  abbrev pub ExpiresBy : ℕ → Channel env → Use env → Type 0
  ExpiresBy limit ch (call_use now peer request) = now + ch.request_timeout ≤ limit
  ExpiresBy limit ch (cast_use now peer indication) = Unit {0}
  ExpiresBy limit ch (reply_use now peer response) = Unit {0}
  ExpiresBy limit ch (poll_send_use now) = Unit {0}
  ExpiresBy limit ch (poll_recv_use rounds now) = Unit {0}

  -- The states that a channel can reach if each of its requests times out at `limit` or before.
  pub data ReachBy (limit : ℕ) : Channel env → Type 0 where
    built : (b : ChannelBuilder) (t : env.transport.State) → ReachBy limit (finish env b t)
    used :
        {ch s : Channel env} (u : Use env)
        → ExpiresBy limit ch u
        → ReachBy limit ch
        → use_channel env u ch ≡ some s
        → ReachBy limit s

  ReachBy-Reach : (limit : ℕ) {ch : Channel env} → ReachBy limit ch → Reach.Reach env ch
  ReachBy-Reach limit (built b t) = Reach.built b t
  ReachBy-Reach limit (used u x r e) = Reach.used u (ReachBy-Reach limit r) e

module _ (env : ChannelEnv) (timed : IsTimedQueue env.timeouts) (k : Key env) where
  open env use {codec, PeerAddr}
  open timed use {laws}

  abbrev is_key : Key env → Bool
  is_key j = (key_partial_eq env).eq j k

  abbrev has : Channel env → Bool
  has ch = contains_key ⦃e = key_partial_eq env⦄ k ch.transactions

  -- No entry of the key falls due after `limit`.
  abbrev NoLater : ℕ → Channel env → Type 0
  NoLater limit ch = timed.later limit is_key ch.timeout_queue ≡ 0

  call-NoLater :
      (limit now : ℕ) (peer : PeerAddr) (request : Request codec) (ch : Channel env)
      → now + ch.request_timeout ≤ limit
      → NoLater limit ch
      → Keeps (NoLater limit) (call env now peer request ch)
  unfolding call
  call-NoLater limit now peer request ch le h = ground (
    arith,
    h,
    timed.later-push limit is_key now (peer, codec.transaction_id request.message)
        ch.request_timeout ch.timeout_queue,
  )

  NoLater-Closed : (limit : ℕ) → Closed env (NoLater limit)
  NoLater-Closed limit = record {
    set_transporter = λ ch t h. h;
    pops = λ now ch o q e u h. pops-NoLater now ch o q e h;
    times_out = λ now ch j q method tx e found h. pops-NoLater now ch (some j) q e h;
    ends = λ ch j method tx x found y h. h;
  }
    where
      pops-NoLater :
          (now : ℕ) (ch : Channel env) (o : Option (Key env)) (q : env.timeouts.Queue)
          → pop_timeout env now ch ≡ (o, q)
          → NoLater limit ch
          → timed.later limit is_key q ≡ 0
      pops-NoLater now ch o q e h =
          let le =
            timed.later-filter_pop limit is_key
              (λ j. contains_key ⦃e = key_partial_eq env⦄ j ch.transactions) now ch.timeout_queue in
          let le' : timed.later limit is_key q ≤ timed.later limit is_key ch.timeout_queue =
            rw e at le in
          omega arith

  ReachBy-NoLater : (limit : ℕ) {ch : Channel env} → ReachBy env limit ch → NoLater limit ch
  unfolding finish
  ReachBy-NoLater limit (built b t) =
      ground (arith, timed.due-later limit is_key env.timeouts.new, laws.count-new is_key)
  ReachBy-NoLater limit {ch = s} (used {ch = ch} u x r e) =
      use_channel-Keeps env (NoLater limit) (NoLater-Closed limit) u ch s
        (λ now peer request c.
          call-NoLater limit now peer request ch (subst (ExpiresBy env limit ch) c x))
        (ReachBy-NoLater limit r) e

  -- If the key is of an outstanding transaction, its entries fall due after `now`.
  abbrev Later : ℕ → Channel env → Type 0
  Later now ch =
      has ch ≡ true → laws.count is_key ch.timeout_queue ≤ timed.later now is_key ch.timeout_queue

  timeout_round-Later :
      (now : ℕ) (rest : ChannelOp env ErrorKind (Unit {0})) (o : Option (Key env))
      (q : env.timeouts.Queue) (ch s : Channel env)
      → pop_timeout env now ch ≡ (o, q)
      → ((c s : Channel env) → rest c ≡ done tt s → Later now s)
      → timeout_round env now rest o (record ch { timeout_queue = q }) ≡ done tt s
      → Later now s
  unfolding timeout_round
  timeout_round-Later now rest none q ch s e next r =
      let p : record ch { timeout_queue = q } ≡ s = ground arith in
      subst (Later now) p λ c.
        let none_due : timed.due now is_key q ≡ 0 = rw e at (
          timed.filter_pop-none is_key
            (λ j. contains_key ⦃e = key_partial_eq env⦄ j ch.transactions) now ch.timeout_queue
            (ap (λ x. x.0) e)
            (λ j ej.
              subst (λ j. contains_key ⦃e = key_partial_eq env⦄ j ch.transactions ≡ true)
                (sym (((key_partial_eq env).eq_iff j k).0 ej)) c)) in
        ground (arith, none_due, timed.due-later now is_key q)
  timeout_round-Later now rest (some j) q ch s e next r =
      let (_, c, _, r') =
        and_then-done (time_out env now j (record ch { timeout_queue = q })) (λ _. rest) tt s r in
      next c s r'

  handle_timeout-Later :
      (rounds now : ℕ) (ch s : Channel env)
      → handle_timeout env rounds now ch ≡ done tt s
      → Later now s
  unfolding handle_timeout
  handle_timeout-Later zero now ch s r = absurd (ground arith)
  handle_timeout-Later (suc rounds) now ch s r =
      timeout_round-Later now (handle_timeout env rounds now) _ _ ch s refl
        (handle_timeout-Later rounds now) r

  Absent-Closed : Closed env (λ ch. has ch ≡ false)
  Absent-Closed = record {
    set_transporter = λ ch t h. h;
    pops = λ now ch o q e u h. h;
    times_out = λ now ch j q method tx e found h.
        ends-Absent j tx (err (some MessageErrorKind.timeout)) (record ch { timeout_queue = q }) h;
    ends = λ ch j method tx x found y h. ends-Absent j tx x ch h;
  }
    where
      ends-Absent :
          (j : Key env) (tx : ℕ) (x : Exit codec) (ch : Channel env)
          → has ch ≡ false
          → has (end_with env j tx x ch) ≡ false
      ends-Absent j tx x ch h =
          ground (arith, h, get-remove ⦃e = key_partial_eq env⦄ j k ch.transactions)

  handle_timeout-Absent :
      (rounds now : ℕ) (ch s : Channel env)
      → ReachBy env now ch
      → handle_timeout env rounds now ch ≡ done tt s
      → has s ≡ false
  handle_timeout-Absent rounds now ch s b r =
      let timed_after : Timed env laws k s = subst (Keeps (Timed env laws k)) r (
        handle_timeout-Keeps env (Timed env laws k)
          (Closed-Preserved env (Timed env laws k) (Timed-Closed env laws k)) rounds now ch
          (Reach-Timed env laws k.0 k.1 (ReachBy-Reach env now b))) in
      let none_later : NoLater now s = subst (Keeps (NoLater now)) r (
        handle_timeout-Keeps env (NoLater now)
          (Closed-Preserved env (NoLater now) (NoLater-Closed now)) rounds now ch
          (ReachBy-NoLater now b)) in
      let later = handle_timeout-Later rounds now ch s r in
      ground (arith, timed_after, none_later, later)

  poll_recv-Absent :
      (rounds now : ℕ) (ch s : Channel env) (r : Received env)
      → ReachBy env now ch
      → poll_recv env rounds now ch ≡ done r s
      → has s ≡ false
  unfolding poll_recv
  poll_recv-Absent rounds now ch s r b e =
      let (_, c, timeouts_done, received) =
        and_then-done (handle_timeout env rounds now ch) (λ _. recv_loop env rounds now) r s e in
      subst (Keeps (λ ch. has ch ≡ false)) received (
        recv_loop-Keeps env (λ ch. has ch ≡ false)
          (Closed-Preserved env (λ ch. has ch ≡ false) Absent-Closed) rounds now c
          (handle_timeout-Absent rounds now ch c b timeouts_done))

module _ (env : ChannelEnv) where
  length-Absent :
      {V : Type 0} (m : HashMap (Key env) V)
      → ((k : Key env) → contains_key ⦃e = key_partial_eq env⦄ k m ≡ false)
      → length m ≡ 0
  length-Absent [] h = refl
  length-Absent ((k, v) ∷ m) h = absurd (ground (arith, h k, (key_partial_eq env).eq_iff k k))

  count_values-length :
      {V : Type 0} (f : V → Bool) (m : HashMap (Key env) V) → length m ≡ 0 → count_values f m ≡ 0
  count_values-length f [] h = refl
  count_values-length f (x ∷ m) h = absurd (ground arith)

  -- If each request that a channel was given times out at `now` or before, then a poll for messages
  -- at the time `now` that returns without an error leaves no transaction outstanding, and each handle
  -- that `call` has returned has got exactly one result, no other handle any.
  pub poll_recv-expires :
      (timed : IsTimedQueue env.timeouts) (rounds now h : ℕ) (ch s : Channel env) (r : Received env)
      → ReachBy env now ch
      → poll_recv env rounds now ch ≡ done r s
      → (outstanding_transactions env s ≡ 0)
        × (count_exits h s.exits ≡ to_nat (ltb h s.next_handle))
  unfolding outstanding_transactions use_channel
  poll_recv-expires timed rounds now h ch s r b e =
      let none_left =
        length-Absent s.transactions (λ k. poll_recv-Absent env timed k rounds now ch s r b e) in
      let answered =
        Reach-Answered env {ch = s} h
          (Reach.used (poll_recv_use rounds now) (ReachBy-Reach env now b) (ground (arith, e))) in
      let none_waits =
        count_values-length (λ (v : ℕ × ℕ). nat_beq v.1 h) s.transactions none_left in
      (none_left, ground (arith, answered, none_waits))
