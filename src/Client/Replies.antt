-- ===== src/Client/Replies.antt =====
-- Every transaction that a client's driver starts is answered once: src/client.rs.
pub mod Commands
use rustun.Prelude.{
  ℕ, zero, suc, ◌+◌, ◌≤◌, ◌≡◌, refl, none, List, [], ◌∷◌, ◌++◌, map, Result, ok, err, Outcome, done,
  fail, panic, running, Keeps, Async, ready, not_ready, nat_beq, to_nat, ltb, arith,
}
use rustun.Prelude.HashMap.{count_values, HashMap}
use rustun.Error.{ErrorKind, error_from_transport}
use rustun.Channel
use rustun.Channel.{ChannelEnv, Channel, Exit, on_transport}
use rustun.Channel.Poll
use rustun.Channel.Steps.{Closed}
use rustun.Channel.Steps.Polls.{on_transport-Keeps, poll_recv-Keeps}
use rustun.Channel.Replies.{Answered, Answered-Closed, count_exits, count_waiting}
use rustun.Client.{ChannelDriver, give_up, dropped}
use rustun.Client.Driver.{DriverOp, poll_sends, poll_channel, receive_loop}

count_exits-append {ℓ} :
    {R : Type ℓ} (h : ℕ) (l m : List (ℕ × R))
    → count_exits h (l ++ m) ≡ count_exits h l + count_exits h m
count_exits-append h [] m = ground arith
count_exits-append h ((tx, x) ∷ l) m = ground (arith, count_exits-append h l m)

count_exits-map {ℓ κ} :
    {R : Type ℓ} {K : Type κ} (h : ℕ) (r : R) (m : HashMap K (ℕ × ℕ))
    → count_exits h (map (λ t. (t.1.1, r)) m) ≡ count_values (λ v. nat_beq v.1 h) m
count_exits-map h r [] = refl
count_exits-map h r ((k, v) ∷ m) = ground (arith, count_exits-map h r m)

module _ (env : ChannelEnv) (tx : ℕ) where
  open env use {codec, PeerAddr}

  -- How often a future of the driver waits for the handle.
  abbrev pub count_waits : List (ℕ × ℕ) → ℕ
  count_waits l = count_exits tx l

  -- How often the handle is waited for in an outstanding transaction, or has got a result.
  abbrev pub count_answers : ChannelDriver env → ℕ
  count_answers d =
      (elim d.channel [ ok ch ↦ count_waiting env tx ch + count_exits tx ch.exits | err e ↦ 0 ])
      + count_exits tx d.results

  abbrev Holds : Channel env → ChannelDriver env → Type 0
  Holds ch d =
      Answered env tx ch
      × (count_waits d.forwards ≡ to_nat (ltb tx ch.next_handle))
      × (count_exits tx d.results ≡ 0)

  abbrev pub Replied : ChannelDriver env → Type 0
  Replied d = elim d.channel [
    | ok ch ↦ Holds ch d
    | err e ↦ (count_waits d.forwards ≡ count_exits tx d.results) × (count_waits d.forwards ≤ 1)
  ]

  -- The handle, and the next one that the channel draws, stay as they are.
  abbrev pub Draws : ℕ → Channel env → Type 0
  Draws n ch = Answered env tx ch × (ch.next_handle ≡ n)

  pub Draws-Closed : (n : ℕ) → Closed env (Draws n)
  Draws-Closed n =
      let a = Answered-Closed env tx in
      record {
        set_transporter = λ ch t d. (a.set_transporter ch t d.0, d.1);
        pops = λ now ch o q e u d. (a.pops now ch o q e u d.0, d.1);
        times_out =
            λ now ch k q method x e found d. (a.times_out now ch k q method x e found d.0, d.1);
        ends = λ ch k method x r found y d. (a.ends ch k method x r found y d.0, d.1);
      }

  count_exits-dropped :
      (ch : Channel env)
      → count_exits tx (dropped env ch) ≡ count_waiting env tx ch + count_exits tx ch.exits
  unfolding dropped
  count_exits-dropped ch =
      let r : Exit codec = err none in
      let x = count_exits-append tx (map (λ t. (t.1.1, r)) ch.transactions) ch.exits in
      let y = count_exits-map tx r ch.transactions in omega arith

  -- A channel whose results are as the driver expects, is given up.
  give_up-Replied :
      (n : ℕ) (ch : Channel env) (e : ErrorKind) (d : ChannelDriver env)
      → count_waits d.forwards ≡ to_nat (ltb tx n)
      → count_exits tx d.results ≡ 0
      → Draws n ch
      → Replied (give_up env ch e d)
  unfolding give_up
  give_up-Replied n ch e d f r ((u, a), i) =
      let x = count_exits-append tx (dropped env ch) d.results in
      let y = count_exits-dropped ch in ground (arith, x, y, f, r, a, i)

  pub set_channel-Replied :
      (n : ℕ) (ch : Channel env) (d : ChannelDriver env)
      → count_waits d.forwards ≡ to_nat (ltb tx n)
      → count_exits tx d.results ≡ 0
      → Draws n ch
      → Replied (record d { channel = ok ch })
  set_channel-Replied n ch d f r (a, i) = (a, ground (arith, f, i), r)

  poll_sends-Replied :
      (now : ℕ) (ch : Channel env) (d : ChannelDriver env)
      → Holds ch d
      → Keeps Replied (poll_sends env now ch d)
  unfolding poll_sends Poll.poll_send
  poll_sends-Replied now ch d (a, f, r) =
      by_case (on_transport env error_from_transport (env.transport.poll_send now) ch) (
        on_transport-Keeps env (Draws ch.next_handle) (Draws-Closed ch.next_handle)
          error_from_transport (env.transport.poll_send now) ch (a, refl))
    where
      by_case :
          (o : Outcome ErrorKind (Channel env) (Async (Unit {0})))
          → Keeps (Draws ch.next_handle) o
          → Keeps {E = ⊥} {A = Async (Unit {0})} Replied (elim o [
            | done _ ch' ↦ done not_ready (record d { channel = ok ch' })
            | fail e ch' ↦ done not_ready (give_up env ch' e d)
            | panic x ↦ panic x
            | running ↦ running
          ])
      by_case (done x ch') k = set_channel-Replied _ ch' d f r k
      by_case (fail e ch') k = give_up-Replied _ ch' e d f r k
      by_case (panic x) k = tt
      by_case running k = tt

  poll_channel-Replied :
      (rounds now : ℕ) (rest : DriverOp env (Async (Unit {0}))) (c : Result (Channel env) ErrorKind)
      (d : ChannelDriver env)
      → ((s : ChannelDriver env) → Replied s → Keeps Replied (rest s))
      → Replied (record d { channel = c })
      → Keeps Replied (poll_channel env rounds now rest c (record d { channel = c }))
  unfolding poll_channel
  poll_channel-Replied rounds now rest (err e) d next h = h
  poll_channel-Replied rounds now rest (ok ch) d next (a, f, r) =
      by_case (Poll.poll_recv env rounds now ch) (
        poll_recv-Keeps env (Draws ch.next_handle) (Draws-Closed ch.next_handle) rounds now ch
          (a, refl))
    where
      by_case :
          (o : Outcome ErrorKind (Channel env) (Poll.Received env))
          → Keeps (Draws ch.next_handle) o
          → let d' = record d { channel = ok ch } in
            Keeps {E = ⊥} {A = Async (Unit {0})} Replied (elim o [
              | done (ready message) ch' ↦ rest (record d' { channel = ok ch' })
              | done not_ready ch' ↦ poll_sends env now ch' d'
              | fail e ch' ↦ done not_ready (give_up env ch' e d')
              | panic x ↦ panic x
              | running ↦ running
            ])
      by_case (done (ready message) ch') k = next _ (set_channel-Replied _ ch' d f r k)
      by_case (done not_ready ch') k =
          poll_sends-Replied now ch' (record d { channel = ok ch })
            (set_channel-Replied _ ch' d f r k)
      by_case (fail e ch') k = give_up-Replied _ ch' e (record d { channel = ok ch }) f r k
      by_case (panic x) k = tt
      by_case running k = tt

  pub receive_loop-Replied :
      (fuel rounds now : ℕ) (d : ChannelDriver env)
      → Replied d
      → Keeps Replied (receive_loop env fuel rounds now d)
  unfolding receive_loop
  receive_loop-Replied zero rounds now d h = tt
  receive_loop-Replied (suc fuel) rounds now d h =
      poll_channel-Replied rounds now (receive_loop env fuel rounds now) d.channel d
        (receive_loop-Replied fuel rounds now) h
