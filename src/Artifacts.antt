-- ===== src/Artifacts.antt =====
-- skivolve/artifacts.py: the canonical form of a case's output.
pub mod Text
pub mod Shape
pub mod ShapeForm
pub mod ShapeTurn
pub mod ShapeSpec
pub mod Parse
pub mod ParseSpec
pub mod Normalize
pub mod Stable
pub mod Settled
pub mod Examples
