-- ===== src/Tests.antt =====
-- Runs of the model at concrete inputs, and the theorems applied to them.
mod Fixture
mod SpoolTests
mod DeliveryTests
mod StoreTests
mod MetricsTests
mod SummaryTests
mod PaginationTests
mod NormalizationTests
mod RunTests
mod HistoryTests
mod CheckpointTests
mod WandbTests
mod MediaTests
mod IdentifiersTests
