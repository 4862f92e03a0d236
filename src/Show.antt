-- ===== src/Show.antt =====
-- package/ezsp-spi/src/ezsp.c, probe.c: the commands that print what the NCP says of itself. A
-- result is the exit status and the text, without what the negotiation and the configuration print
-- on the way. The pins and the SPI device are open (`p`).
pub mod Names
pub mod Keys
pub mod Tables
pub mod Settings
pub mod Info
pub mod Heard
pub mod Probing
pub mod Silence
pub mod Secret
pub mod Tests
