-- ===== src/Schemas.antt =====
-- packages/schemas/src: the data that the components exchange. The zod validators themselves are a
-- library; what a validated value looks like is modelled here.
pub mod Json
mod Intent
mod Results
pub mod Encode
pub mod Stringify
pub use Intent.*
pub use Results.*
