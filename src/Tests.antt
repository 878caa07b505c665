-- ===== src/Tests.antt =====
-- The services run on tables in memory.
pub mod Fixture
pub mod Conflict
pub mod Worker
pub mod Sales
pub mod Office
pub mod Endpoint
pub mod Backend
pub mod Lists
pub mod Queues
pub mod Tokens
pub mod Access
pub mod Registers
pub mod Staff
pub mod Calls
pub mod Tenant
