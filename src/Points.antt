-- ===== src/Points.antt =====
-- Points and devices of the database: pkg/dbWriter.go and the first and last functions of pkg/app.go.
pub mod Store
pub mod Uart
pub mod Fields
pub mod Writer
pub mod Setup
pub mod Invariant
pub mod Operations
