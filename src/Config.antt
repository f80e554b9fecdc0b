-- ===== src/Config.antt =====
-- The configuration: its data, the reading and the checks of its files, and its route table.
pub mod Site
pub mod Text
pub mod Server
pub mod Sites
pub mod SiteLists
pub mod Validate
pub mod Load
pub mod Methods
pub mod Routes
