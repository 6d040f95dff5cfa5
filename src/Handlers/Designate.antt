-- ===== src/Handlers/Designate.antt =====
-- handlers/designate: the handler of DNS zones.
pub mod Zone
