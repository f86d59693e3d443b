-- ===== src/Tests.antt =====
-- Concrete runs of the modelled code.
mod Data
mod Creation
mod Moving
mod Answers
mod Jobs
mod Parts
pub mod Run
pub mod Accounts
pub mod Mails
pub mod Shown
pub mod Pages
pub mod Lists
