-- ===== src/Backend.antt =====
-- The cloud service, backend/app: what it stores, and what its requests and loops do to that.
pub mod Database
pub mod Health
pub mod Devices
pub mod Properties
pub mod Alerts
pub mod Message
pub mod Raising
pub mod Ingestor
pub mod Pages
pub mod Cursor
pub mod Outbox
pub mod AutoFix
pub mod Stream
pub mod Sse
pub mod Http
pub mod Estate
pub mod Views
pub mod PropertyDetail
