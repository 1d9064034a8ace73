-- ===== src/Guard/Services.antt =====
-- The service ports of peers.toml against the table of internal/guard/guard.go, by guardConfig of
-- cmd/csa/main.go.
use callsignet.Base.{string_key}
use callsignet.Config.{Config}
