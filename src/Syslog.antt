-- ===== src/Syslog.antt =====
-- The syslog agent: parsing and classification of messages, the aggregator that infers the health
-- of devices, its durable queue and its uploader (syslog/*.py).
pub mod Classify
pub mod Queue
pub mod Uploader
pub mod Device
pub mod Health
pub mod Summary
pub mod Aggregator
pub mod Listener
