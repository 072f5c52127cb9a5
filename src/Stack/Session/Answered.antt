-- ===== src/Stack/Session/Answered.antt =====
-- A `BINDING` call over transports that lose nothing is answered: the network tests of src/lib.rs.
use rustun.Prelude.{
  ℕ, suc, ◌+◌, ◌≤◌, ◌<◌, ◌≡◌, ◌∙◌, true, Option, some, [], ◌∷◌, ok, done, ready, not_ready, arith,
  inl, inr,
}
use rustun.Codec.{StunCodec, IsStunCodec, MessageClass}
use rustun.Message.{check_unknown_attributes, required_unknowns}
use rustun.Message.Request
use rustun.Message.Request.{Request}
use rustun.Message.SuccessResponse
use rustun.Message.SuccessResponse.{SuccessResponse}
use rustun.Message.ErrorResponse.{Response}
use rustun.Message.Attributes.{get_attribute-one}
use rustun.Channel
use rustun.Channel.{ChannelEnv, response_message}
use rustun.Client.{ChannelDriver, heard}
use rustun.Client.Driver as Client
use rustun.Server
use rustun.Server.{HandlerDriver}
use rustun.Server.Driver
use rustun.Server.Binding.{Rfc5389, handle_call}
use rustun.Server.Answers.{binding_server, Responds, handle_call-Responds}
use rustun.Stack.Link.{Item}
use rustun.Stack.Link.Polls.{At}
use rustun.Stack.Start.{call_binding}
use rustun.Stack.Session.{
  Endpoint, channel_at, client_receives, client_sent, server_receives, server_sent,
}
use rustun.Stack.Session.Asks.{
  question, request_timeout, calling, asking, poll-asking, call_binding-calling,
}
use rustun.Stack.Session.Run.{exchange}
use rustun.Stack.Session.Hears.{told, poll-told, poll-ends}
use rustun.Stack.Session.Serves.{serving, poll-answers}

module _ (c : StunCodec) (laws : IsStunCodec c) (a b : Endpoint c) (Future : Type 0)
    (rfc_a : Rfc5389 c a.PeerAddr) (rfc : Rfc5389 c b.PeerAddr) where
  abbrev client : ChannelEnv
  client = channel_at a

  abbrev server : Server.ServerEnv
  server = binding_server (channel_at b) Future rfc

  module _ (server_addr : a.PeerAddr) (client_addr : b.PeerAddr) (id reply : ℕ) where
    abbrev request : Request c
    request = question client rfc_a server_addr id reply

    -- What comes of a call, by a poll of the client's driver `d` at the time `t1`, one of the server's
    -- driver `e` at `t2` when the request has arrived at it, and one of the client's driver at `t3`
    -- when the answer has arrived: the request and the answer are all that is sent, the caller hears
    -- the answer, in which the one attribute is the address of the client, and the client's driver ends.
    abbrev pub Answered :
        {T : Type 0}
        → (c.Attribute → Option T)
        → (fuel rounds t1 t2 t3 : ℕ) → Option (ChannelDriver client)
        → HandlerDriver server
        → Type 0
    Answered try_as_ref fuel rounds t1 t2 t3 d e =
        (d0 d1 d2 : ChannelDriver client) × (e1 : HandlerDriver server) × (m : SuccessResponse c)
        × (d ≡ some d0)
        × (Client.poll client fuel rounds t1 d0 ≡ done not_ready d1)
        × (client_sent a d1 ≡ (server_addr, request.message) ∷ [])
        × (Driver.poll server fuel rounds t2
              (server_receives b Future rfc (client_addr, ok request.message) e)
            ≡ done not_ready e1)
        × (server_sent b Future rfc e1 ≡ (client_addr, m.message) ∷ [])
        × (Client.poll client fuel rounds t3 (client_receives a (server_addr, ok m.message) d1)
            ≡ done not_ready d2)
        × (heard client reply d2 ≡ some (ok (ok m)))
        × (c.attributes m.message ≡ rfc.xor_mapped_address client_addr ∷ [])
        × (SuccessResponse.get_attribute c try_as_ref m
            ≡ try_as_ref (rfc.xor_mapped_address client_addr))
        × (Client.poll client fuel rounds t3 d2 ≡ done (ready tt) d2)

    request-from_message : Request.from_message c request.message ≡ ok request
    unfolding Request.from_message check_unknown_attributes required_unknowns
    request-from_message = ground (
      arith,
      laws.class-new MessageClass.request rfc_a.binding id,
      laws.unknown_attributes-new MessageClass.request rfc_a.binding id,
    )

    heard-told :
        (x : Response c) (t : a.transport.State) (q : a.timeouts.Queue)
        → heard client reply (told client rfc_a server_addr id reply x t q) ≡ some (ok x)
    unfolding heard
    heard-told x t q = ground arith

    -- The request is answered with success.
    answer :
        rfc_a.binding ≡ rfc.binding
        → (m : SuccessResponse c) × (handle_call c b.PeerAddr Future rfc client_addr request
            ≡ Server.reply (ok m))
          × Responds c laws Future rfc request (rfc.xor_mapped_address client_addr) (ok m)
    answer same = elim (handle_call-Responds c laws Future rfc client_addr request) [
      | inl (m, _, e, s) ↦ (m, e, s)
      | inr (m, ne, _, _) ↦
          absurd (ne (laws.method-new MessageClass.request rfc_a.binding id ∙ same))
    ]

    -- The poll of the server when the request has arrived.
    answers :
        (fuel rounds t2 : ℕ) (m : SuccessResponse c) (s' : b.transport.State)
        → handle_call c b.PeerAddr Future rfc client_addr request ≡ Server.reply (ok m)
        → c.class m.message ≡ MessageClass.success_response
        → b.link.Knows client_addr
        → b.link.Calm t2 s'
        → b.link.arrived s' ≡ []
        → b.link.sent s' ≡ []
        → (s2 : b.transport.State) × (q2 : b.timeouts.Queue) × (Driver.poll server
              (suc (suc fuel))
              (suc rounds)
              t2
              (serving
                (channel_at b)
                Future
                rfc
                (b.link.arrive (client_addr, ok request.message) s')
                b.timeouts.new)
            ≡ done not_ready (serving (channel_at b) Future rfc s2 q2))
          × At (channel_at b) b.timed b.link b.laws t2 [] ((client_addr, m.message) ∷ []) s2 q2
    unfolding SuccessResponse.into_message
    answers fuel rounds t2 m s' action success known calm arrived sent =
        let x : Item c b.PeerAddr = (client_addr, ok request.message) in
        let t = b.link.arrive x s' in
        let at : At (channel_at b) b.timed b.link b.laws t2 (x ∷ []) [] t b.timeouts.new = (
          ground (arith, arrived, b.laws.arrived-arrive t2 x s' known calm),
          ground (arith, sent, b.laws.sent-arrive x s'),
          b.laws.Calm-arrive t2 x s' calm,
          ground (
            arith,
            b.timed.due-later t2 (λ _. true) b.timeouts.new,
            b.timed.laws.count-new (λ _. true),
          ),
        ) in
        poll-answers (channel_at b) Future rfc b.timed b.link b.laws fuel rounds t2 t2 client_addr
          request (ok m) [] t b.timeouts.new (omega arith) known
          (laws.class-new MessageClass.request rfc_a.binding id) request-from_message action
          (λ h. ground (arith, success, h)) at

    -- A `BINDING` call of a client on a new channel, over a transport on which a request is sent at once
    -- and nothing is lost, is answered by a server with `BindingHandler`, if the client polls again
    -- before the request would be sent again or time out.
    pub call_binding-Answered :
        {T : Type 0} (try_as_ref : c.Attribute → Option T) (fuel rounds t1 t2 t3 limit : ℕ)
        (s : a.transport.State) (s' : b.transport.State)
        → rfc_a.binding ≡ rfc.binding
        → t1 ≤ limit
        → t3 ≤ limit
        → a.link.Knows server_addr
        → b.link.Knows client_addr
        → a.link.Quiet t1 limit s
        → limit < t1 + request_timeout client rfc_a server_addr id reply
        → a.link.Fresh t1 s
        → a.link.arrived s ≡ []
        → a.link.sent s ≡ []
        → b.link.Calm t2 s'
        → b.link.arrived s' ≡ []
        → b.link.sent s' ≡ []
        → Answered try_as_ref
            (suc (suc fuel))
            (suc (suc rounds))
            t1
            t2
            t3
            (call_binding client rfc_a server_addr id reply (Channel.new client s))
            (Server.new tt (Channel.new (channel_at b) s'))
    unfolding Server.new Channel.new SuccessResponse.get_attribute SuccessResponse.into_message
    call_binding-Answered try_as_ref fuel rounds t1 t2 t3 limit s s' same le1 le3 known known' quiet
          patient fresh arrived sent calm' arrived' sent' =
        let (m, action, responds) = answer same in
        let (s1, q1, p1, (ar1, se1, ca1, nd1)) =
          poll-asking client rfc_a server_addr id reply laws a.timed a.link a.laws (suc fuel)
            (suc rounds) t1 limit s le1 known quiet patient fresh arrived sent in
        let (s2, q2, p2, (ar2, se2, ca2, nd2)) =
          answers fuel (suc rounds) t2 m s' action responds.0 known' calm' arrived' sent' in
        let (s3, q3, p3, at3) =
          poll-told client rfc_a server_addr id reply laws a.timed a.link a.laws Future rfc
            (suc fuel) rounds t3 limit (rfc.xor_mapped_address client_addr) (ok m)
            ((server_addr, request.message) ∷ []) (a.link.arrive (server_addr, ok m.message) s1) q1
            le3 responds
            (
              ground (
                arith,
                ar1,
                a.laws.arrived-arrive limit (server_addr, ok m.message) s1 known ca1,
              ),
              ground (arith, se1, a.laws.sent-arrive (server_addr, ok m.message) s1),
              a.laws.Calm-arrive limit (server_addr, ok m.message) s1 ca1,
              nd1,
            ) in
        (
          calling client rfc_a server_addr id reply s,
          asking client rfc_a server_addr id reply s1 q1,
          told client rfc_a server_addr id reply (ok m) s3 q3,
          serving (channel_at b) Future rfc s2 q2,
          m,
          call_binding-calling client rfc_a server_addr id reply s,
          p1,
          se1,
          p2,
          se2,
          p3,
          heard-told (ok m) s3 q3,
          responds.3,
          get_attribute-one c laws try_as_ref m.message (rfc.xor_mapped_address client_addr)
              responds.3,
          poll-ends client rfc_a server_addr id reply laws a.timed a.link a.laws Future rfc
              (suc (suc fuel)) (suc (suc rounds)) t3 (ok m) s3 q3,
        )

    -- The run of the three polls gives the caller a success response.
    pub exchange-Answered :
        {T : Type 0} (try_as_ref : c.Attribute → Option T) (fuel rounds t1 t2 t3 : ℕ)
        (d : Option (ChannelDriver client)) (e : HandlerDriver server)
        → Answered try_as_ref fuel rounds t1 t2 t3 d e
        → (m : SuccessResponse c) × (exchange a b Future rfc server_addr client_addr reply fuel
              rounds t1 t2 t3 d e
            ≡ some (ok (ok m)))
    unfolding exchange
    exchange-Answered try_as_ref fuel rounds t1 t2 t3 d e
          (d0, d1, d2, e1, m, p0, p1, s1, p2, s2, p3, h, _, _, _) =
        (
          m,
          ground (
            arith,
            p0,
            p1,
            s1,
            p2,
            s2,
            p3,
            h,
            a.peer_partial_eq.eq_iff server_addr server_addr,
            b.peer_partial_eq.eq_iff client_addr client_addr,
          ),
        )
