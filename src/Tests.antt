-- ===== src/Tests.antt =====
-- Runs of the models at concrete inputs, and the theorems applied there.
mod FlushRuns
mod EmbeddingRuns
mod StreamRuns
mod WindowRuns
mod GcraRuns
mod MultiRuns
mod ScheduleRuns
mod RoundRuns
mod CacheRuns
mod CorsRuns
mod SharingRuns
mod RequestRuns
mod BudgetRuns
