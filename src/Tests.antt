-- ===== src/Tests.antt =====
-- Examples of the theorems on concrete inputs: thousandths for floats, and clients that log their calls.
pub mod Data
pub mod Caching
pub mod Graphs
pub mod Mining
pub mod Investigations
pub mod Ranking
pub mod Serving
pub mod Settings
pub mod Signals
pub mod Store
pub mod Repository
pub mod Lookups
pub mod Mock
pub mod Startup
pub mod Ending
pub mod Keys
pub mod Together
