-- ===== src/PaymentConfig.antt =====
-- src/modules/payment-config/payment-config.service.ts: a property's key and salt at the gateway.
use pg_master_backend.Prelude.{ℕ, not, Option, ◌==◌}
use pg_master_backend.Store.Rows.{find_first}
use pg_master_backend.Store.Schema.{GatewayConfig}
use pg_master_backend.Store.World.{
  World, Action, pure, gets, or_throw, throw_if, ◌>>=◌, ◌>>◌, gateway_not_configured,
  gateway_disabled,
}

abbrev pub config_of : ℕ → World → Option GatewayConfig
config_of property_id w =
    find_first (λ (c : GatewayConfig). c.property_id == property_id) w.gateway_configs

unfoldable pub get_config_for_payment : ℕ → Action GatewayConfig
get_config_for_payment property_id = do
  found ← gets (config_of property_id)
  config ← or_throw found gateway_not_configured
  throw_if (not config.is_active) gateway_disabled
  pure config
