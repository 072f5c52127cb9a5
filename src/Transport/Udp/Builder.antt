-- ===== src/Transport/Udp/Builder.antt =====
-- src/transport/udp.rs, `StunUdpTransporterBuilder` and the start of a `StunUdpTransporter`.
use rustun.Prelude.{ℕ, ◌*◌, [], Op, done, fail, panic, running}
use rustun.Transport.Udp.{UdpEnv, RetransmitTransporter}

-- `Duration::from_millis`, in nanoseconds.
unfoldable pub from_millis : ℕ → ℕ
from_millis ms = ms * 1_000_000

abbrev pub default_rto_ms : ℕ
default_rto_ms = 500

abbrev pub default_rto_cache_duration_ms : ℕ
default_rto_cache_duration_ms = 10 * 60 * 1000

abbrev pub default_max_outstanding_transactions : ℕ
default_max_outstanding_transactions = 10

abbrev pub default_min_transaction_interval_ms : ℕ
default_min_transaction_interval_ms = default_rto_ms

pub record StunUdpTransporterBuilder : Type 0 where
  pub rto : ℕ
  pub rto_cache_duration : ℕ
  pub min_transaction_interval : ℕ
  pub max_outstanding_transactions : ℕ

unfoldable pub default : StunUdpTransporterBuilder
unfolding from_millis
default = record {
  rto = from_millis default_rto_ms;
  rto_cache_duration = from_millis default_rto_cache_duration_ms;
  min_transaction_interval = from_millis default_min_transaction_interval_ms;
  max_outstanding_transactions = default_max_outstanding_transactions;
}

-- `StunUdpTransporterBuilder::new`.
unfoldable pub builder_new : StunUdpTransporterBuilder
unfolding default
builder_new = default

-- The setters.
unfoldable pub with_rto : ℕ → StunUdpTransporterBuilder → StunUdpTransporterBuilder
with_rto rto b = record b { rto = rto }

unfoldable pub with_rto_cache_duration : ℕ → StunUdpTransporterBuilder → StunUdpTransporterBuilder
with_rto_cache_duration duration b = record b { rto_cache_duration = duration }

unfoldable pub with_min_transaction_interval :
    ℕ → StunUdpTransporterBuilder → StunUdpTransporterBuilder
with_min_transaction_interval interval b = record b { min_transaction_interval = interval }

unfoldable pub with_max_outstanding_transactions :
    ℕ → StunUdpTransporterBuilder → StunUdpTransporterBuilder
with_max_outstanding_transactions max b = record b { max_outstanding_transactions = max }

module _ (env : UdpEnv) where
  unfoldable pub finish : StunUdpTransporterBuilder → env.inner.State → RetransmitTransporter env
  finish b inner = record {
    inner = inner;
    timeout_queue = env.timeouts.new;
    peers = [];
    rto = b.rto;
    rto_cache_duration = b.rto_cache_duration;
    min_transaction_interval = b.min_transaction_interval;
    max_outstanding_transactions = b.max_outstanding_transactions;
  }

  -- `StunUdpTransporter::new`.
  unfoldable pub new : env.inner.State → RetransmitTransporter env
  unfolding finish default
  new inner = finish default inner

  unfoldable pub inner_ref : RetransmitTransporter env → env.inner.State
  inner_ref t = t.inner

  -- `m` is what is done to the inner transporter by the reference that `inner_mut` returns.
  unfoldable pub inner_mut :
      {E A : Type 0} → Op E env.inner.State A → Op E (RetransmitTransporter env) A
  inner_mut m t = elim (m t.inner) [
    | done a i ↦ done a (record t { inner = i })
    | fail e i ↦ fail e (record t { inner = i })
    | panic x ↦ panic x
    | running ↦ running
  ]
