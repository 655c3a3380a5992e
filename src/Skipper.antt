-- ===== src/Skipper.antt =====
-- The server: data series, their structure and the checks on their data points.
pub mod Structure
pub mod Uuid
pub mod Validate
pub mod Pagination
pub mod Events
pub mod Filter
pub mod SoftDelete
pub mod EventTests
pub mod FilterTests
pub mod Samples
pub mod Tests
pub mod ValidateTests
pub mod PaginationTests
pub mod SoftDeleteTests
