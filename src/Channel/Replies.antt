-- ===== src/Channel/Replies.antt =====
-- Every call of a channel is answered once: src/channel.rs.
use rustun.Prelude.{err, ℕ, ◌+◌, ◌≡◌, some, List, [], ◌∷◌, Keeps, ltb, nat_beq, to_nat, arith}
use rustun.Prelude.HashMap.{
  get, Unique, count_values, remove-Unique, insert-Unique, count_values-remove, count_values-insert,
}
use rustun.Error.{MessageErrorKind}
use rustun.Message.Request.{Request}
use rustun.Channel.{ChannelEnv, Channel, Key, Exit, key_partial_eq, call}
use rustun.Channel.Steps.{Closed, end_with}

-- How often the handle `h` has got a result.
abbrev pub count_exits {ℓ} : {R : Type ℓ} → ℕ → List (ℕ × R) → ℕ
count_exits h [] = 0
count_exits h ((tx, r) ∷ l) = to_nat (nat_beq tx h) + count_exits h l

module _ (env : ChannelEnv) where
  open env use {codec, PeerAddr}

  -- How often the handle `h` is waited for by an outstanding transaction.
  abbrev pub count_waiting : ℕ → Channel env → ℕ
  count_waiting h ch = count_values (λ v. nat_beq v.1 h) ch.transactions

  -- No two transactions have the same key, and the handle `h` was drawn at most once: it is waited
  -- for, or has got a result.
  abbrev pub Answered : ℕ → Channel env → Type 0
  Answered h ch =
      Unique ⦃e = key_partial_eq env⦄ ch.transactions
      × (count_waiting h ch + count_exits h ch.exits ≡ to_nat (ltb h ch.next_handle))

  pub call-Answered :
      (h now : ℕ) (peer : PeerAddr) (request : Request codec) (ch : Channel env)
      → Answered h ch
      → Keeps (Answered h) (call env now peer request ch)
  unfolding call
  call-Answered h now peer request ch (u, e) =
      let k : Key env = (peer, codec.transaction_id request.message) in
      let v : ℕ × ℕ = (codec.method request.message, ch.next_handle) in
      ground (
        arith,
        insert-Unique ⦃e = key_partial_eq env⦄ k v ch.transactions,
        count_values-insert ⦃e = key_partial_eq env⦄ (λ v. nat_beq v.1 h) k v ch.transactions,
      )

  ends-Answered :
      (h : ℕ) (ch : Channel env) (k : Key env) (method tx : ℕ) (x : Exit codec)
      → get ⦃e = key_partial_eq env⦄ k ch.transactions ≡ some (method, tx)
      → Answered h ch
      → Answered h (end_with env k tx x ch)
  ends-Answered h ch k method tx x found (u, e) =
      let c =
        count_values-remove ⦃e = key_partial_eq env⦄ (λ v. nat_beq v.1 h) k (method, tx)
          ch.transactions u found in
      (remove-Unique ⦃e = key_partial_eq env⦄ k ch.transactions u, omega arith)

  pub Answered-Closed : (h : ℕ) → Closed env (Answered h)
  Answered-Closed h = record {
    set_transporter = λ ch t a. a;
    pops = λ now ch o q e u a. a;
    times_out = λ now ch k q method tx e found a.
        ends-Answered h ch k method tx (err (some MessageErrorKind.timeout)) found a;
    ends = λ ch k method tx x found y a. ends-Answered h ch k method tx x found a;
  }
