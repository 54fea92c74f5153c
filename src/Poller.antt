-- ===== src/Poller.antt =====
-- The SD-LAN poller: its durable queue, its uploader, its memory of device states and its health
-- assessment (poller/*.py).
pub mod Json
pub mod Config
pub mod Query
pub mod Client
pub mod Devices
pub mod Reading
pub mod Mapper
pub mod Platform
pub mod Identity
pub mod Report
pub mod Queue
pub mod Uploader
pub mod StateStore
pub mod Poll
pub mod Cycle
