-- ===== src/Xml.antt =====
-- src/xml: the reading of documents.
pub mod Dom
pub mod Extract
mod Tests
