-- ===== src/Postgres/Pool.antt =====
-- crates/workflow_engine_postgres/src/pool.rs: how the pool of connections is built. The driver, the
-- TLS library and the pool are parameters (`Drivers`); the plumbing that hands the stream of one to
-- the other has no logic of its own.
use tianshu_rs.Base.{
  ℕ, String, Bool, false, not, ◌||◌, Option, none, some, Result, ok, err, ◌==◌, string_eq,
  if◌then◌else◌,
}
use tianshu_rs.Base.Parse.{trim, to_ascii_lowercase}

-- what `build_tls_connector` sets of a `TlsConnectorBuilder`
pub record TlsSettings : Type 0 where
  pub accept_invalid_certs : Bool
  pub accept_invalid_hostnames : Bool

-- `parse` reads the URL, `ssl_disabled` is the test `get_ssl_mode() == SslMode::Disable`, `connector`
-- is the `build` of a builder with these settings, and `pool` is that of `Pool::builder` over a manager
-- with this connector, or without TLS, and this largest size.
pub record Drivers (Config Connector Pool : Type 0) : Type 0 where
  pub parse : String → Result Config
  pub ssl_disabled : Config → Bool
  pub connector : TlsSettings → Result Connector
  pub pool : Config → Option Connector → (max_size : ℕ) → Result Pool

abbrev means_yes : String → Bool
means_yes v = v == "1" || v == "true" || v == "yes" || v == "on"

-- of the variable `DB_SSL_VERIFY_CERT`, where it is set and is Unicode
unfoldable pub tls_verification_enabled : Option String → Bool
tls_verification_enabled none = false
tls_verification_enabled (some value) = means_yes (to_ascii_lowercase (trim value))

module _ {Config Connector Pool : Type 0} (drivers : Drivers Config Connector Pool) where
  unfoldable pub uses_tls : Config → Bool
  uses_tls config = not (drivers.ssl_disabled config)

  unfoldable pub build_tls_connector : (variable : Option String) → Result Connector
  unfolding tls_verification_enabled
  build_tls_connector variable =
      let lax = not (tls_verification_enabled variable) in
      drivers.connector (record { accept_invalid_certs = lax; accept_invalid_hostnames = lax })

  abbrev pool_over : Config → Result Connector → Result Pool
  pool_over config (ok connector) = drivers.pool config (some connector) 16
  pool_over config (err e) = err e

  abbrev pool_for : (variable : Option String) → Result Config → Result Pool
  pool_for variable (err e) = err e
  pool_for variable (ok config) =
      if uses_tls config
      then pool_over config (build_tls_connector variable)
      else drivers.pool config none 16

  unfoldable pub build_pool : (variable : Option String) → (database_url : String) → Result Pool
  unfolding uses_tls build_tls_connector
  build_pool variable url = pool_for variable (drivers.parse url)
