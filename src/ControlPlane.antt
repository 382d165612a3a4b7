-- ===== src/ControlPlane.antt =====
-- apps/api: the control plane, over the tables of its database.
pub mod Tables
pub mod Db
pub mod Registry
pub mod Policies
pub mod Events
pub mod Executions
pub mod Approvals
pub mod Review
pub mod Service
