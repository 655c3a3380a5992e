-- ===== src/Client.antt =====
-- The Python client library: the definitions that it moves between instances, and their diff.
pub mod Models
pub mod DomainAliases
pub mod Operation
pub mod Serializer
pub mod Diff
pub mod Rest
pub mod Push
pub mod Samples
pub mod Tests
