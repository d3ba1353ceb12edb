-- ===== src/Tenant.antt =====
-- platform/tenant-manager: the life of a tenant, the queue of its actions and its provisioning.
pub mod Lifecycle
pub mod Transactions
pub mod Drift
pub mod Policies
pub mod Cache
pub mod Queue
pub mod Site
pub mod Provisioner
pub mod Actions
pub mod Worker
