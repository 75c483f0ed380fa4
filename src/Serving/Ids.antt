-- ===== src/Serving/Ids.antt =====
-- The identifiers of ingestion/batch/pipeline/clickhouse_publisher.py.
use gb_industrial_energy_dat.Prelude.{String, Bool, codes, is_hex, exactly, after_prefix}

-- `SAFE_ATTEMPT_ID.fullmatch`
unfoldable pub safe_attempt_id : String → Bool
unfolding after_prefix exactly
safe_attempt_id s = after_prefix (codes "publication-") (exactly 32 is_hex) (codes s)

-- `SHA256_PATTERN.fullmatch`
unfoldable pub sha256_pattern : String → Bool
unfolding exactly
sha256_pattern s = exactly 64 is_hex (codes s)
