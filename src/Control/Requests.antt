-- ===== src/Control/Requests.antt =====
-- What the commands ask of the daemon is what the daemon does (package/ezsp-spi/src/control.c).
use openwrt_ezsp_spi.Host.{Host}
