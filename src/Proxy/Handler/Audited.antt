-- ===== src/Proxy/Handler/Audited.antt =====
-- Which requests to internal/s3proxy/server.go leave an event in the audit log.
use stowage.Proxy.Exchange.{Server}
