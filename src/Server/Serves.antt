-- ===== src/Server/Serves.antt =====
-- What the driver of a server sends of the responses that wait: src/server.rs, the parts of
-- `HandlerDriver::poll`.
pub mod Polls
use rustun.Prelude.{
  ℕ, ◌≡◌, refl, ap, sym, ◌∙◌, none, true, false, List, [], ◌∷◌, Outcome, Op, subst, ◌++◌, some,
  fail, panic, running, done, ready, not_ready, and_then-done, arith,
}
use rustun.Error.{ErrorKind, error_from_message}
use rustun.Message.ErrorResponse.{Response}
use rustun.Channel
use rustun.Channel.{Channel}
use rustun.Channel.Poll
use rustun.Channel.Reach.{Use, use_channel, returned, reply_use}
use rustun.Channel.Receive.{RecvMessage, indication, request, invalid}
use rustun.Server.{
  ServerEnv, HandlerDriver, Action, reply, future_reply, no_reply, future_no_reply, effects,
  replies,
}
use rustun.Server.Driver.{
  Progress, ended, did, on_channel, or_tell, on_received, spawn, act_on_call, act_on_cast,
  handle_message, handle_indication, handle_request, handle_invalid_message,
}

module _ (env : ServerEnv) where
  open env use {channel}
  open channel use {codec, PeerAddr}

  -- From one state of the channel to another, by polls and by replies; among them the replies with the
  -- responses of a list, in its order.
  pub data Sends (now : ℕ) (ch : Channel channel)
      : List (PeerAddr × Response codec) → Channel channel → Type 0 where
    start : Sends now ch [] ch
    used :
        {l : List (PeerAddr × Response codec)} {c s : Channel channel} (u : Use channel)
        → Sends now ch l c
        → use_channel channel u c ≡ some s
        → Sends now ch l s
    sent :
        {l : List (PeerAddr × Response codec)} {c s : Channel channel} (peer : PeerAddr)
        (x : Response codec)
        → Sends now ch l c
        → Channel.reply channel now peer x c ≡ done tt s
        → Sends now ch (l ++ (peer, x) ∷ []) s

  -- What a call of the driver has sent of the responses that waited.
  abbrev pub Serves : ℕ → HandlerDriver env → HandlerDriver env → Type 0
  Serves now d s =
      (l : List (PeerAddr × Response codec)) × (d.response_rx ≡ l ++ s.response_rx)
      × Sends now d.channel l s.channel

  -- The same, after what was sent before from the channel `c` and the responses `all`.
  abbrev pub From :
      ℕ → List (PeerAddr × Response codec) → Channel channel → HandlerDriver env → Type 0
  From now all c s =
      (l : List (PeerAddr × Response codec)) × (all ≡ l ++ s.response_rx) × Sends now c l s.channel

  From-used :
      (now : ℕ) (all : List (PeerAddr × Response codec)) (c : Channel channel)
      (d s : HandlerDriver env) (u : Use channel)
      → use_channel channel u d.channel ≡ some s.channel
      → s.response_rx ≡ d.response_rx
      → From now all c d
      → From now all c s
  From-used now all c d s u e rx (l, p, h) = (l, p ∙ ap (λ x. l ++ x) (sym rx), used u h e)

  pub or_tell-From :
      {A : Type 0} (now : ℕ) (all : List (PeerAddr × Response codec)) (c : Channel channel)
      (m : Op ErrorKind (Channel channel) A) (u : Use channel) (a : A) (d s : HandlerDriver env)
      → use_channel channel u d.channel ≡ returned (m d.channel)
      → or_tell env m d ≡ done a s
      → From now all c d
      → From now all c s
  or_tell-From {A} now all c m u a d s e r h = by_case (m d.channel) e r
    where
      by_case :
          (o : Outcome ErrorKind (Channel channel) A)
          → use_channel channel u d.channel ≡ returned o
          → (elim o [
            | done a ch ↦ done a (record d { channel = ch })
            | fail e ch ↦
                fail e (record d {
                  channel = ch;
                  handler = env.handler.handle_channel_error e d.handler;
                })
            | panic x ↦ panic x
            | running ↦ running
          ])
            ≡ done a s
          → From now all c s
      by_case (done b ch) e r =
          let p : record d { channel = ch } ≡ s = ground arith in
          subst (From now all c) p (From-used now all c d (record d { channel = ch }) u e refl h)
      by_case (fail x ch) e r = absurd (ground arith)
      by_case (panic x) e r = absurd (ground arith)
      by_case running e r = absurd (ground arith)

  pub From-equal :
      {A : Type 0} (now : ℕ) (all : List (PeerAddr × Response codec)) (c : Channel channel)
      (a b : A) (d s : HandlerDriver env)
      → ◌≡◌ {A = Outcome ErrorKind (HandlerDriver env) A} (done a d) (done b s)
      → From now all c d
      → From now all c s
  From-equal now all c a b d s e h = let p : d ≡ s = ground arith in subst (From now all c) p h

  -- A reply that the channel took.
  pub on_channel-reply :
      (now : ℕ) (peer : PeerAddr) (x : Response codec) (d s : HandlerDriver env)
      → on_channel env error_from_message (Channel.reply channel now peer x) d ≡ done tt s
      → (Channel.reply channel now peer x d.channel ≡ done tt s.channel)
        × (s.response_rx ≡ d.response_rx)
  on_channel-reply now peer x d s r = ground (arith, r)

  act_on_call-From :
      (now : ℕ) (all : List (PeerAddr × Response codec)) (c : Channel channel) (peer : PeerAddr)
      (action : Action env.Future (Response codec)) (d s : HandlerDriver env)
      → act_on_call env now peer action d ≡ done tt s
      → From now all c d
      → From now all c s
  unfolding act_on_call use_channel
  act_on_call-From now all c peer no_reply d s r h = From-equal now all c tt tt d s r h
  act_on_call-From now all c peer (future_no_reply f) d s r h =
      From-equal now all c tt tt (spawn env (effects f) d) s r h
  act_on_call-From now all c peer (future_reply f) d s r h =
      From-equal now all c tt tt (spawn env (replies f peer) d) s r h
  act_on_call-From now all c peer (reply x) d s r h =
      let (took, rx) = on_channel-reply now peer x d s r in
      From-used now all c d s (reply_use now peer x) (ground (arith, took)) rx h

  act_on_cast-From :
      (now : ℕ) (all : List (PeerAddr × Response codec)) (c : Channel channel)
      (action : Action env.Future ⊥) (d s : HandlerDriver env)
      → act_on_cast env action d ≡ done tt s
      → From now all c d
      → From now all c s
  unfolding act_on_cast
  act_on_cast-From now all c no_reply d s r h = From-equal now all c tt tt d s r h
  act_on_cast-From now all c (future_no_reply f) d s r h =
      From-equal now all c tt tt (spawn env (effects f) d) s r h
  act_on_cast-From now all c (future_reply f) d s r h = absurd (ground arith)
  act_on_cast-From now all c (reply x) d s r h = elim x [ ]

  handle_message-From :
      (now : ℕ) (all : List (PeerAddr × Response codec)) (c : Channel channel) (peer : PeerAddr)
      (m : RecvMessage codec) (d s : HandlerDriver env)
      → handle_message env now peer m d ≡ done tt s
      → From now all c d
      → From now all c s
  unfolding handle_message handle_indication handle_request handle_invalid_message
  handle_message-From now all c peer (indication m) d s r h =
      act_on_cast-From now all c _
        (record d { handler = (env.handler.handle_cast peer m d.handler).1 }) s r h
  handle_message-From now all c peer (request m) d s r h =
      act_on_call-From now all c peer _
        (record d { handler = (env.handler.handle_call peer m d.handler).1 }) s r h
  handle_message-From now all c peer (invalid m) d s r h =
      act_on_call-From now all c peer _
        (record d { handler = (env.handler.handle_invalid_message peer m d.handler).1 }) s r h

  pub on_received-From :
      (now : ℕ) (all : List (PeerAddr × Response codec)) (c : Channel channel)
      (x : Poll.Received channel) (p : Progress env) (d s : HandlerDriver env)
      → on_received env now x d ≡ done p s
      → From now all c d
      → From now all c s
  unfolding on_received
  on_received-From now all c not_ready p d s r h = From-equal now all c (did false) p d s r h
  on_received-From now all c (ready none) p d s r h = From-equal now all c ended p d s r h
  on_received-From now all c (ready (some (peer, m))) p d s r h =
      let (_, s', handled, e) =
        and_then-done (handle_message env now peer m d) (λ _ s. done (did true) s) p s r in
      From-equal now all c (did true) p s' s e (handle_message-From now all c peer m d s' handled h)
