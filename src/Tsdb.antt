-- ===== src/Tsdb.antt =====
-- backends/tsdb: the time series backend. The vendored v3io-tsdb library is a parameter.
pub mod Calls
pub mod Writer
pub mod Labels
pub mod Reader
pub mod Series
pub mod Tables
pub mod Adapters
