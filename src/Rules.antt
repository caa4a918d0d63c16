-- ===== src/Rules.antt =====
-- internal/rules: the per-client rule engine.
pub mod Schema
pub mod Labels
pub mod Pattern
pub mod HostTree
pub mod HostIndex
pub mod Outcome
pub mod Compile
pub mod Egress
pub mod MaskedKey
pub mod Coverage
pub mod Auth
pub mod Actions
pub mod RuleSet
mod Samples
mod PolicySamples
mod Tests
mod PolicyTests
mod KeyTests
pub mod DefaultRuleset
pub mod DefaultLoad
pub mod Caches
pub mod TableCache
pub mod Store
pub mod Engine
