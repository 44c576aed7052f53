-- ===== src/Risk/Checks.antt =====
-- packages/risk-engine/src/checks.ts, one child for each group of facts that the checks read.
pub mod Verdicts
mod Market
mod Portfolio
mod Daily
mod Proposal
unfoldable pub use Market.*
unfoldable pub use Portfolio.*
unfoldable pub use Daily.*
unfoldable pub use Proposal.*
