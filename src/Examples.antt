-- ===== src/Examples.antt =====
-- Concrete rooms, and the theorems applied to them.
pub mod Data
mod Rooms
mod Posts
mod Strings
mod Machines
mod Judgments
mod Uploads
mod Attachments
mod Deposits
