-- ===== src/Handlers/Barbican.antt =====
-- handlers/barbican: the handlers of secrets and of their containers.
pub mod Url
pub mod Secret
pub mod SecretContainer
