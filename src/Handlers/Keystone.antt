-- ===== src/Handlers/Keystone.antt =====
-- handlers/keystone: the handlers of domains, projects, users and roles.
pub mod Project
pub mod Domain
pub mod Role
pub mod User
