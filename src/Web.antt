-- ===== src/Web.antt =====
-- The web front end: what its pages and its adapter route make of the requests and answers of the API.
pub mod Actions
pub mod Adapter
pub mod Forward
pub mod Hours
pub mod Middleware
