-- ===== src/Redaction.antt =====
-- backend/voice_agent/platform/infrastructure/observability/redaction.py, part by part.
pub mod Markers
pub mod Spans
pub mod Library
pub mod Decoding
pub mod Keys
pub mod Quotes
pub mod Values
pub mod Pairs
mod Tests
pub mod Urls
pub mod Tokens
pub mod Budgets
pub mod Objects
pub mod Agreement
pub mod Results
pub mod Shapes
pub mod Json
pub mod Layers
pub mod Described
pub mod Assembled
pub mod Entries
pub mod Sequences
pub mod Sanitizer
pub mod Identifiers
pub mod Events
pub mod Frames
pub mod Traces
