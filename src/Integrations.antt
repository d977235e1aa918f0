-- ===== src/Integrations.antt =====
-- integrations.py: the forwarding of events to a SIEM and to a webhook.
pub mod Cef
pub mod Header
pub mod Forwarder
pub mod Queue
mod Tests
