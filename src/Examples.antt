-- ===== src/Examples.antt =====
-- Witnesses of the theorems at concrete inputs, and runs of the definitions.
mod Loading
mod Requests
mod Scoring
mod Ingestion
mod Bronze
mod Streams
mod Warehouse
mod Orchestration
mod Delivery
mod Composed
mod History
mod Publishing
mod Application
mod Flow
