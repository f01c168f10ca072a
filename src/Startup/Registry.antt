-- ===== src/Startup/Registry.antt =====
-- The configurations of the two processes, and the channels that the worker registers.
use rdispatch.Common.{String, Bool, true, List, [], ◌∷◌, ◌++◌, str_eq, if◌then◌else◌}
use rdispatch.Common.Int.{ℤ, pos}
use rdispatch.Nats.Client.{Config as NatsConfig}
use rdispatch.Postgres.Pool.{Config as PostgresConfig}
use rdispatch.Delivery.Notification.{Channel}
use rdispatch.Delivery.Channels.{
  Network, Std, log_channel, webhook_channel, telegram_channel, slack_channel,
}

pub record WorkerConfig : Type 0 where
  pub metrics_port : ℤ
  pub log_level : String
  pub development : Bool
  pub nats : NatsConfig
  pub webhook_url : String
  pub webhook_secret : String
  pub telegram_token : String
  pub telegram_chat : String
  pub slack_webhook : String
  pub otlp_endpoint : String

-- The configuration that `config.Load` is given.
abbrev pub worker_defaults : WorkerConfig
worker_defaults = record {
  metrics_port = pos 8092;
  log_level = "info";
  development = true;
  nats = record { url = "nats://localhost:4222" };
  webhook_url = "";
  webhook_secret = "";
  telegram_token = "";
  telegram_chat = "";
  slack_webhook = "";
  otlp_endpoint = "";
}

-- `if value != "" { deliveryChannels = append(deliveryChannels, channel) }`.
unfoldable pub append_unless_empty : String → Channel → List Channel → List Channel
append_unless_empty value channel chs = if str_eq value "" then chs else chs ++ channel ∷ []

-- The channels of the worker, in the order of their registration.
unfoldable pub registered : Std → Network → WorkerConfig → List Channel
unfolding append_unless_empty
registered std net cfg =
    let always = log_channel ∷ [] in
    let webhook =
      webhook_channel std net (record { url = cfg.webhook_url; secret = cfg.webhook_secret }) in
    let telegram =
      telegram_channel std net
        (record { token = cfg.telegram_token; chat_id = cfg.telegram_chat }) in
    let slack = slack_channel std net (record { webhook_url = cfg.slack_webhook }) in
    append_unless_empty cfg.slack_webhook slack (
      append_unless_empty cfg.telegram_token telegram
        (append_unless_empty cfg.webhook_url webhook always))

-- The gateway's configuration.
pub record GatewayConfig : Type 0 where
  pub http_port : ℤ
  pub metrics_port : ℤ
  pub log_level : String
  pub development : Bool
  pub postgres : PostgresConfig
  pub nats : NatsConfig
  pub otlp_endpoint : String

-- `gateway.Defaults`.
abbrev pub gateway_defaults : GatewayConfig
gateway_defaults = record {
  http_port = pos 8090;
  metrics_port = pos 8091;
  log_level = "info";
  development = true;
  postgres = record {
    host = "localhost";
    port = pos 5432;
    database = "rdispatch";
    user = "rdispatch";
    password = "rdispatch";
    max_conns = pos 10;
    min_conns = pos 0;
  };
  nats = record { url = "nats://localhost:4222" };
  otlp_endpoint = "";
}
