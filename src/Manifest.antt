-- ===== src/Manifest.antt =====
-- The suite manifest: skivolve/manifest.py.
pub mod Values
pub mod Types
pub mod Paths
pub mod Provider
pub mod ProviderRules
pub mod Variants
pub mod Comparisons
pub mod Contract
pub mod ContractRules
pub mod Cases
pub mod CaseRules
pub mod Suite
pub mod SuiteRules
