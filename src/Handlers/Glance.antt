-- ===== src/Handlers/Glance.antt =====
-- handlers/glance: the handler of images.
pub mod Image
