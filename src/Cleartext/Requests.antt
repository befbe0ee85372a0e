-- ===== src/Cleartext/Requests.antt =====
-- packet_audit/cleartext.py: the callers of the scans that keep only their records.
use packet_inspector_windows.Prelude.{ℕ, not, Option, List, Bytes, Text}
use packet_inspector_windows.Cleartext.Fields.{CleartextRecord, is_redis_auth, is_coverage, select}
use packet_inspector_windows.Cleartext.Redis.{scan_redis}
use packet_inspector_windows.Cleartext.Postgres.{scan_postgres, scan_postgres_authentication}

unfoldable pub redis_auth : (Bytes → Option Text) → Bytes → List CleartextRecord
unfolding select scan_redis
redis_auth decode data_bytes = select is_redis_auth (scan_redis decode data_bytes).0

unfoldable pub postgres_passwords : (Bytes → Option Text) → Option ℕ → Bytes → List CleartextRecord
unfolding select scan_postgres
postgres_passwords decode method data_bytes =
    select (λ material. not (is_coverage material)) (scan_postgres decode method data_bytes).0

unfoldable pub postgres_authentication_requests : Bytes → List CleartextRecord
unfolding scan_postgres_authentication
postgres_authentication_requests data_bytes = (scan_postgres_authentication data_bytes).0
