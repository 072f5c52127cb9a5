-- ===== src/Channel/Steps.antt =====
-- What a poll of a channel does to its state, as small steps: src/channel.rs, `poll_recv`.
pub mod Polls
use rustun.Prelude.{
  Outcome, Keeps, done, fail, panic, running, ℕ, ◌≡◌, Option, none, some, ◌∷◌, err,
}
use rustun.Prelude.HashMap.{get, remove, contains_key}
use rustun.Error.{ForeignErrorKind, MessageErrorKind}
use rustun.Codec.{MessageClass}
use rustun.Channel.{ChannelEnv, Channel, Key, Exit, key_partial_eq}
use rustun.Channel.Receive.{success_result, error_result}

module _ (env : ChannelEnv) where
  open env use {codec, PeerAddr}

  -- What a transaction with the id `id` and the method `method` can end with.
  pub data Ending (id method : ℕ) : Exit codec → Type 0 where
    failed : (e : Option MessageErrorKind) → Ending id method (err e)
    succeeded :
        (m : codec.Message)
        → codec.transaction_id m ≡ id
        → codec.class m ≡ MessageClass.success_response
        → Ending id method (success_result codec method m)
    refused :
        (m : codec.Message)
        → codec.transaction_id m ≡ id
        → codec.class m ≡ MessageClass.error_response
        → Ending id method (error_result codec method m)

  -- The transaction of the key `k` ends.
  abbrev pub end_with : Key env → ℕ → Exit codec → Channel env → Channel env
  end_with k tx x ch = record ch {
    transactions = remove ⦃e = key_partial_eq env⦄ k ch.transactions;
    exits = (tx, x) ∷ ch.exits;
  }

  -- What `handle_timeout` pops, with the queue that is left.
  abbrev pub pop_timeout : ℕ → Channel env → Option (Key env) × env.timeouts.Queue
  pop_timeout now ch =
      env.timeouts.filter_pop now (λ k. contains_key ⦃e = key_partial_eq env⦄ k ch.transactions)
        ch.timeout_queue

  -- What was popped is not of an outstanding transaction.
  abbrev pub Unmatched : Option (Key env) → Channel env → Type 0
  Unmatched none ch = Unit {0}
  Unmatched (some k) ch = get ⦃e = key_partial_eq env⦄ k ch.transactions ≡ none

  -- Wherever a call of the transport returns, `P` holds of the channel with the transport's new state.
  abbrev pub KeepsOn :
      {A : Type 0}
      → (Channel env → Type 0)
      → Channel env
      → Outcome ForeignErrorKind env.transport.State A
      → Type 0
  KeepsOn P ch r = Keeps (λ t. P (record ch { transporter = t })) r

  -- `P` goes on to hold in each step of a poll: a call of the transport, an entry that is popped, and
  -- the end of a transaction, with or without a timeout, which the transport is told.
  pub record Preserved (P : Channel env → Type 0) : Type 0 where
    pub receives :
        (now : ℕ) (ch : Channel env)
        → P ch
        → KeepsOn P ch (env.transport.poll_recv now ch.transporter)
    pub pops_none :
        (now : ℕ) (ch : Channel env) (q : env.timeouts.Queue)
        → pop_timeout now ch ≡ (none, q)
        → P ch
        → P (record ch { timeout_queue = q })
    pub pops_unknown :
        (now : ℕ) (ch : Channel env) (k : Key env) (q : env.timeouts.Queue)
        → pop_timeout now ch ≡ (some k, q)
        → get ⦃e = key_partial_eq env⦄ k ch.transactions ≡ none
        → P ch
        → KeepsOn P
            (record ch { timeout_queue = q })
            (env.transport.finish_transaction now k.0 k.1 ch.transporter)
    pub times_out :
        (now : ℕ) (ch : Channel env) (k : Key env) (q : env.timeouts.Queue) (method tx : ℕ)
        → pop_timeout now ch ≡ (some k, q)
        → get ⦃e = key_partial_eq env⦄ k ch.transactions ≡ some (method, tx)
        → P ch
        → KeepsOn P
            (end_with k tx (err (some MessageErrorKind.timeout)) (record ch { timeout_queue = q }))
            (env.transport.finish_transaction now k.0 k.1 ch.transporter)
    pub ends :
        (now : ℕ) (ch : Channel env) (k : Key env) (method tx : ℕ) (x : Exit codec)
        → get ⦃e = key_partial_eq env⦄ k ch.transactions ≡ some (method, tx)
        → Ending k.1 method x
        → P ch
        → KeepsOn P
            (end_with k tx x ch)
            (env.transport.finish_transaction now k.0 k.1 ch.transporter)

  -- `P` says nothing of the transport, and goes on to hold when an entry of the queue is popped, and
  -- when a transaction ends.
  pub record Closed (P : Channel env → Type 0) : Type 0 where
    pub set_transporter :
        (ch : Channel env) (t : env.transport.State) → P ch → P (record ch { transporter = t })
    pub pops :
        (now : ℕ) (ch : Channel env) (o : Option (Key env)) (q : env.timeouts.Queue)
        → pop_timeout now ch ≡ (o, q)
        → Unmatched o ch
        → P ch
        → P (record ch { timeout_queue = q })
    pub times_out :
        (now : ℕ) (ch : Channel env) (k : Key env) (q : env.timeouts.Queue) (method tx : ℕ)
        → pop_timeout now ch ≡ (some k, q)
        → get ⦃e = key_partial_eq env⦄ k ch.transactions ≡ some (method, tx)
        → P ch
        → P (end_with k tx (err (some MessageErrorKind.timeout)) (record ch { timeout_queue = q }))
    pub ends :
        (ch : Channel env) (k : Key env) (method tx : ℕ) (x : Exit codec)
        → get ⦃e = key_partial_eq env⦄ k ch.transactions ≡ some (method, tx)
        → Ending k.1 method x
        → P ch
        → P (end_with k tx x ch)

  pub KeepsOn-all :
      {A : Type 0} (P : Channel env → Type 0) (ch : Channel env)
      (r : Outcome ForeignErrorKind env.transport.State A)
      → ((t : env.transport.State) → P (record ch { transporter = t }))
      → KeepsOn P ch r
  KeepsOn-all P ch (done a t) p = p t
  KeepsOn-all P ch (fail e t) p = p t
  KeepsOn-all P ch (panic x) p = tt
  KeepsOn-all P ch running p = tt

  pub Closed-Preserved : (P : Channel env → Type 0) → Closed P → Preserved P
  Closed-Preserved P c = record {
    receives = λ now ch p. KeepsOn-all P ch _ (λ t. c.set_transporter ch t p);
    pops_none = λ now ch q e p. c.pops now ch none q e tt p;
    pops_unknown = λ now ch k q e u p.
        KeepsOn-all P (record ch { timeout_queue = q }) _
          (λ t. c.set_transporter _ t (c.pops now ch (some k) q e u p));
    times_out = λ now ch k q method tx e found p.
        KeepsOn-all P
          (end_with k tx (err (some MessageErrorKind.timeout)) (record ch { timeout_queue = q })) _
          (λ t. c.set_transporter _ t (c.times_out now ch k q method tx e found p));
    ends = λ now ch k method tx x found y p.
        KeepsOn-all P (end_with k tx x ch) _
          (λ t. c.set_transporter _ t (c.ends ch k method tx x found y p));
  }
