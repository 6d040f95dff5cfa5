-- ===== src/Handlers/Nova.antt =====
-- handlers/nova: the handlers of flavors, key pairs and instances.
pub mod Flavor
pub mod Keypair
pub mod Instance
