-- ===== src/Config.antt =====
-- crates/core/src/config: mod.rs, and the registry of settings of registry.rs. Texts are lists of
-- code points; the explanation in an `InvalidValue` is left out.
pub mod Text
pub mod Keys
pub mod Values
pub mod Layers
pub mod Resolve
pub mod Environment
mod Tests

pub data ConfigError : Type 0 where
  unknown_key read_only_setting invalid_value invalid_environment_name reserved_environment
        conflicting_proxy_aliases missing_custom_proxy secret_required secret_not_allowed :
      ConfigError

pub data ProxyMode : Type 0 where
  inherit custom direct : ProxyMode
