-- ===== src/Channel/Spec.antt =====
-- An abstract specification of a channel, and that src/channel.rs refines it. The specification knows
-- no transport, no clock and no queue: a table of the transactions that wait for a response, and the
-- results of calls.
use mathlib.Core.Path.{fun_ext}
use rustun.Prelude.{
  ℕ, suc, ◌≡◌, refl, Option, none, some, List, [], ◌∷◌, Keeps, if◌then◌else◌, err, subst, sym,
  Option-cases, inl, inr, done, fail, panic, running, Outcome,
}
use rustun.Prelude.HashMap.{get, insert, get-remove, get-insert}
use rustun.Error.{MessageErrorKind, ErrorKind, message_error_from_transport, ForeignErrorKind}
use rustun.Message.Request
use rustun.Message.Request.{Request}
use rustun.Channel.{ChannelEnv, Channel, Key, Exit, key_partial_eq, call, finish}
use rustun.Channel.Steps.{Closed, end_with}
use rustun.Channel.Matches.{Fits, Ending-Fits}
use rustun.Channel.Reach.{Reach, built, used, use_channel-Keeps}

module _ (env : ChannelEnv) where
  open env use {codec, PeerAddr}

  -- The method and the handle of each transaction that waits; the next handle; the results.
  pub record Table : Type 0 where
    pub waiting : Key env → Option (ℕ × ℕ)
    pub next_handle : ℕ
    pub results : List (ℕ × Exit codec)

  abbrev pub empty : Table
  empty = record { waiting = λ k. none; next_handle = 0; results = [] }

  abbrev pub update : Key env → Option (ℕ × ℕ) → Table → Key env → Option (ℕ × ℕ)
  update k v t j = if (key_partial_eq env).eq k j then v else t.waiting j

  -- A call starts a transaction unless one of its key waits, or is refused at once. A transaction ends
  -- with an error, or with a response that fits it.
  pub data Step : Table → Table → Type 0 where
    opens :
        (t : Table) (k : Key env) (method : ℕ)
        → t.waiting k ≡ none
        → Step t (record t {
          waiting = update k (some (method, t.next_handle)) t;
          next_handle = suc t.next_handle;
        })
    refuses :
        (t : Table) (e : MessageErrorKind)
        → Step t (record t {
          next_handle = suc t.next_handle;
          results = (t.next_handle, err (some e)) ∷ t.results;
        })
    ends :
        (t : Table) (k : Key env) (method tx : ℕ) (x : Exit codec)
        → t.waiting k ≡ some (method, tx)
        → Fits codec k.1 method x
        → Step t (record t { waiting = update k none t; results = (tx, x) ∷ t.results })

  pub data Steps (t : Table) : Table → Type 0 where
    here : Steps t t
    next : {u v : Table} → Steps t u → Step u v → Steps t v

  -- What a channel is to its owner.
  abbrev pub table : Channel env → Table
  table ch = record {
    waiting = λ k. get ⦃e = key_partial_eq env⦄ k ch.transactions;
    next_handle = ch.next_handle;
    results = ch.exits;
  }

  abbrev pub Refines : Table → Channel env → Type 0
  Refines t ch = Steps t (table ch)

  -- A step whose table is equal to that of the channel.
  Step-Refines :
      {t : Table} (u v : Table) (ch : Channel env)
      → Steps t u
      → Step u v
      → (f : (k : Key env) → v.waiting k ≡ get ⦃e = key_partial_eq env⦄ k ch.transactions)
      → v.next_handle ≡ ch.next_handle
      → v.results ≡ ch.exits
      → Refines t ch
  Step-Refines {t} u v ch s st f n r =
      let p : v ≡ table ch =
        λ i. record { waiting = fun_ext f i; next_handle = n i; results = r i } in
      subst (Steps t) p (next s st)

  ends-Refines :
      (t : Table) (ch : Channel env) (k : Key env) (method tx : ℕ) (x : Exit codec)
      → get ⦃e = key_partial_eq env⦄ k ch.transactions ≡ some (method, tx)
      → Fits codec k.1 method x
      → Refines t ch
      → Refines t (end_with env k tx x ch)
  ends-Refines t ch k method tx x found y s =
      Step-Refines (table ch) _ (end_with env k tx x ch) s (ends (table ch) k method tx x found y)
        (λ j. sym (get-remove ⦃e = key_partial_eq env⦄ k j ch.transactions)) refl refl

  Refines-Closed : (t : Table) → Closed env (Refines t)
  Refines-Closed t = record {
    set_transporter = λ ch i s. s;
    pops = λ now ch o q e u s. s;
    times_out = λ now ch k q method tx e found s. ends-Refines t ch k method tx _ found tt s;
    ends = λ ch k method tx x found y s.
        ends-Refines t ch k method tx x found (Ending-Fits env k.1 method x y) s;
  }

  call-Refines :
      (t : Table) (now : ℕ) (peer : PeerAddr) (request : Request codec) (ch : Channel env)
      → Refines t ch
      → Keeps (Refines t) (call env now peer request ch)
  unfolding call Request.transaction_id Request.method Request.into_message
  call-Refines t now peer request ch s =
      elim (Option-cases (
        get ⦃e = key_partial_eq env⦄ (peer, codec.transaction_id request.message)
          ch.transactions)) [
            | inr (v, e) ↦
                rw (Keeps, e) (next s (refuses (table ch) MessageErrorKind.invalid_input))
            | inl e ↦
                rw (Keeps, e)
                  (by_case (peer, codec.transaction_id request.message)
                    (codec.method request.message) e
                    (env.transport.start_send now peer request.message ch.transporter))
          ]
    where
      by_case :
          (k : Key env) (method : ℕ)
          → get ⦃e = key_partial_eq env⦄ k ch.transactions ≡ none
          → (o : Outcome ForeignErrorKind env.transport.State (Unit {0}))
          → Keeps {E = ErrorKind} {A = ℕ} (Refines t) (elim o [
            | fail e i ↦ done ch.next_handle (record ch {
              transporter = i;
              next_handle = suc ch.next_handle;
              exits = (ch.next_handle, err (some (message_error_from_transport e))) ∷ ch.exits;
            })
            | done _ i ↦ done ch.next_handle (record ch {
              transporter = i;
              next_handle = suc ch.next_handle;
              transactions =
                  insert ⦃e = key_partial_eq env⦄ k (method, ch.next_handle) ch.transactions;
              timeout_queue = env.timeouts.push now k ch.request_timeout ch.timeout_queue;
            })
            | panic x ↦ panic x
            | running ↦ running
          ])
      by_case k method absent (fail e i) =
          next s (refuses (table ch) (message_error_from_transport e))
      by_case k method absent (done x i) =
          let ch' : Channel env = record ch {
            transporter = i;
            next_handle = suc ch.next_handle;
            transactions =
                insert ⦃e = key_partial_eq env⦄ k (method, ch.next_handle) ch.transactions;
            timeout_queue = env.timeouts.push now k ch.request_timeout ch.timeout_queue;
          } in
          Step-Refines (table ch) _ ch' s (opens (table ch) k method absent)
            (λ j.
              sym
                (get-insert ⦃e = key_partial_eq env⦄ k j (method, ch.next_handle) ch.transactions))
            refl refl
      by_case k method absent (panic x) = tt
      by_case k method absent running = tt

  -- To each state that a channel can reach belongs a run of the abstract specification, from the empty
  -- table to the table of that state, in which a call starts a transaction, if none of its key waits,
  -- or is refused at once, and a transaction ends with an error or with a response that fits it.
  pub Reach-Refines : {ch : Channel env} → Reach env ch → Refines empty ch
  unfolding finish
  Reach-Refines (built b t) = here
  Reach-Refines {ch = s} (used {ch = ch} u r e) =
      use_channel-Keeps env (Refines empty) (Refines-Closed empty) u ch s
        (λ now peer request _. call-Refines empty now peer request ch) (Reach-Refines r) e
