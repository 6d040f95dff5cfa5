-- ===== src/Handlers/Manila.antt =====
-- handlers/manila: the handlers of shares and share types.
pub mod ShareType
pub mod Mount
pub mod Share
