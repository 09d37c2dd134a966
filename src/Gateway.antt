-- ===== src/Gateway.antt =====
-- internal/gateway: how the policy becomes route rules of the data plane.
pub mod Rules
pub mod Security
pub mod RuleSets
pub mod Mode
pub mod Allow
pub mod Layers
pub mod Engine
pub mod Verdicts
pub mod Axes
mod Tests
