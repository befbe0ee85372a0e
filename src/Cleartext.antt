-- ===== src/Cleartext.antt =====
-- packet_audit/cleartext.py: bounded recognizers of Redis and PostgreSQL wire data.
mod Fields
mod Scan
mod Redis
mod Postgres
pub mod Requests
pub mod Progress
pub mod Prefix
pub mod RedisFrames
pub mod RedisWire
pub mod PostgresFrames
pub mod PostgresScan
pub use Fields.{CleartextRecord, Material, redis_auth, auth, value}
unfoldable pub use Fields.{all_bytes}
pub use Scan.{Scanned}
unfoldable pub use Redis.{redis_step, scan_redis}
unfoldable pub use Scan.{scan_loop}
unfoldable pub use Postgres.{client_step, server_step, scan_postgres, scan_postgres_authentication}
