-- ===== src/Email.antt =====
-- The mail module.
pub mod Gateway
pub mod Token
pub mod Templates
