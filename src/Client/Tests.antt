-- ===== src/Client/Tests.antt =====
-- Tests of the client.
mod Child
mod DataSeries
mod DataPoints
mod Definitions
mod DomainAliases
mod Push
mod Structure
mod Hidden
