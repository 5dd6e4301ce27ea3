-- ===== src/Http.antt =====
-- web/admin/src/utils/http/axios: requests, their cancellation, their retry and
-- their answers.
pub mod Before
pub mod Query
pub mod Cancel
pub mod Retry
pub mod Status
pub mod ErrorLog
pub mod Response
pub mod Tests
