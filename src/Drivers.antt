-- ===== src/Drivers.antt =====
-- drivers/cmd: the drivers that receive requests from outside and decide whom to trust.
pub mod Decides
pub mod Webhook
pub mod AuthSimple
