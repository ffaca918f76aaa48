-- ===== src/MongoDb.antt =====
-- mongodb/mongodb_binding.go and mongodb/mongodb_atlas_api.go.
pub mod Grants
pub mod Client
pub mod Accounts
pub mod Urls
pub mod Users
pub mod Service
pub mod Atlas
pub mod Generation
pub mod Health
mod Tests
mod AtlasTests
