-- ===== src/Tests.antt =====
-- Concrete inputs for the theorems, over the integers of Decimal/Micro.
mod Ingestion
mod Cycle
mod Requests
mod Api
mod Lists
mod Lending
mod Decisions
