-- ===== src/Handlers/Cinder.antt =====
-- handlers/cinder: the handlers of volumes and volume types.
pub mod VolumeType
pub mod Volume
