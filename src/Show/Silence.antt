-- ===== src/Show/Silence.antt =====
-- What `probe` says of an NCP that does not answer (package/ezsp-spi/src/probe.c, spi.c).
