-- ===== src/Client/Diff.antt =====
-- client/compose_client/library/service/diff.py
pub mod Remote
pub mod Models
pub mod Child
pub mod Groups
pub mod Leads
pub mod All
pub mod DataSeries
pub mod Engines
pub mod HttpEndpoints
pub mod UserGroups
pub mod DataPoints
