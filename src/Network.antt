-- ===== src/Network.antt =====
-- src/node/network: how announced blocks get into the engine.
pub mod Import
pub mod ImportLaws
