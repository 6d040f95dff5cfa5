-- ===== src/Handlers.antt =====
-- sunbeam_migrate/handlers: the interface of a migration handler and the helpers of its base class
-- (base.py), the registry (factory.py), and the handlers themselves.
pub mod Interface
pub mod Base
pub mod Factory
pub mod Sdk
pub mod Common
pub mod Neutron
pub mod Keystone
pub mod Nova
pub mod Cinder
pub mod Owner
pub mod Through
pub mod Glance
pub mod Designate
pub mod Octavia
pub mod Barbican
pub mod Manila
pub mod Found
pub mod Created
pub mod Lawful
