-- ===== src/Centipoints.antt =====
-- packages/shared/src/centipoints.ts: the one place that converts between points and centipoints.
pub mod Numbers
