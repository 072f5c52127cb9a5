-- ===== src/Channel/Matches.antt =====
-- A call gets the response to its own request only: src/channel.rs.
use rustun.Prelude.{ℕ, ◌≡◌, some, List, ◌∷◌, ok, err, Keeps, nat_beq_iff, arith}
use rustun.Prelude.HashMap.{get, remove, get-remove}
use rustun.Codec.{StunCodec, MessageClass}
use rustun.Message.SuccessResponse
use rustun.Message.ErrorResponse
use rustun.Message.ErrorResponse.{Response}
use rustun.Channel.{ChannelEnv, Channel, Key, Exit, key_partial_eq}
use rustun.Channel.Receive.{success_result, error_result}
use rustun.Channel.Poll.{poll_recv}
use rustun.Channel.Steps.{Ending, failed, succeeded, refused, Closed, end_with}
use rustun.Channel.Steps.Polls.{poll_recv-Keeps}

module _ (c : StunCodec) where
  -- The result of a call with the id `id` and the method `method`: a response has that id and method,
  -- and the class that goes with it.
  abbrev pub Fits : ℕ → ℕ → Exit c → Type 0
  Fits id method (err e) = Unit {0}
  Fits id method (ok (ok r)) =
      (c.transaction_id r.message ≡ id)
      × (c.method r.message ≡ method)
      × (c.class r.message ≡ MessageClass.success_response)
  Fits id method (ok (err r)) =
      (c.transaction_id r.message ≡ id)
      × (c.method r.message ≡ method)
      × (c.class r.message ≡ MessageClass.error_response)

module _ (env : ChannelEnv) where
  open env use {codec, PeerAddr}

  pub Ending-Fits :
      (id method : ℕ) (x : Exit codec) → Ending env id method x → Fits codec id method x
  unfolding success_result error_result SuccessResponse.from_message ErrorResponse.from_message
      SuccessResponse.method ErrorResponse.method
  Ending-Fits id method _ (failed e) = tt
  Ending-Fits id method _ (succeeded m i k) = ground (arith, nat_beq_iff (codec.method m) method)
  Ending-Fits id method _ (refused m i k) = ground (arith, nat_beq_iff (codec.method m) method)

  -- The results that came after those of the channel `ch`, the latest first, are of outstanding
  -- transactions of `ch`, and fit them.
  pub data Later (ch : Channel env) : List (ℕ × Exit codec) → Type 0 where
    same : Later ch ch.exits
    later :
        {l : List (ℕ × Exit codec)} (k : Key env) (method tx : ℕ) (x : Exit codec)
        → get ⦃e = key_partial_eq env⦄ k ch.transactions ≡ some (method, tx)
        → Fits codec k.1 method x
        → Later ch l
        → Later ch ((tx, x) ∷ l)

  -- The results of `s` are later than those of `ch`, and its transactions are among those of `ch`.
  abbrev pub Follows : Channel env → Channel env → Type 0
  Follows ch s =
      Later ch s.exits
      × ((k : Key env) (v : ℕ × ℕ)
          → get ⦃e = key_partial_eq env⦄ k s.transactions ≡ some v
          → get ⦃e = key_partial_eq env⦄ k ch.transactions ≡ some v)

  ends-Follows :
      {ch : Channel env} (s : Channel env) (k : Key env) (method tx : ℕ) (x : Exit codec)
      → get ⦃e = key_partial_eq env⦄ k s.transactions ≡ some (method, tx)
      → Fits codec k.1 method x
      → Follows ch s
      → Follows ch (end_with env k tx x s)
  ends-Follows s k method tx x found y (l, sub) =
      (later k method tx x (sub k (method, tx) found) y l, λ j v h. sub j v (get-removed j v h))
    where
      get-removed :
          (j : Key env) (v : ℕ × ℕ)
          → get ⦃e = key_partial_eq env⦄ j (remove ⦃e = key_partial_eq env⦄ k s.transactions)
            ≡ some v
          → get ⦃e = key_partial_eq env⦄ j s.transactions ≡ some v
      get-removed j v h = ground (arith, get-remove ⦃e = key_partial_eq env⦄ k j s.transactions)

  Follows-Closed : (ch : Channel env) → Closed env (Follows ch)
  Follows-Closed ch = record {
    set_transporter = λ s t f. f;
    pops = λ now s o q e u f. f;
    times_out = λ now s k q method tx e found f. ends-Follows s k method tx _ found tt f;
    ends = λ s k method tx x found y f.
        ends-Follows s k method tx x found (Ending-Fits k.1 method x y) f;
  }

  -- A poll of the channel starts no transaction, and every result that it gives, up to where it returns
  -- or fails, is of a transaction that was outstanding before. A result that is a response has the
  -- transaction id and the method of the call that waits for it, and the class of its kind.
  pub poll_recv-Follows :
      (rounds now : ℕ) (ch : Channel env) → Keeps (Follows ch) (poll_recv env rounds now ch)
  poll_recv-Follows rounds now ch =
      poll_recv-Keeps env (Follows ch) (Follows-Closed ch) rounds now ch (same, λ k v h. h)
