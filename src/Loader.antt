-- ===== src/Loader.antt =====
-- feature_store/src/loader.py
pub mod Rows
pub mod Users
pub mod Merchants
pub mod Metadata
pub mod Run
pub mod Failure
