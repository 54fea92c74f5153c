-- ===== src/Tests.antt =====
-- Runs on small inputs, and each theorem at a concrete input.
mod PollerQueue
mod PollerUploader
mod PollerState
mod SyslogAgent
mod Ingestor
mod Poll
mod Listener
mod Mapper
mod Pages
mod Outbox
mod Sse
mod Views
mod Config
mod Client
mod Cycle
