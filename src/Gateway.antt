-- ===== src/Gateway.antt =====
-- apps/trackone-gateway-svc: the producer of ledger segments and its workers.
pub mod Producer
pub mod TimestampWorker
