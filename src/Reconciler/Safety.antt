-- ===== src/Reconciler/Safety.antt =====
-- The steps of a pass do not panic and send permitted writes only.
mod Site
mod Database
mod Exposure
pub mod Ending
pub mod Pass
pub mod Deletion
pub mod Whole
