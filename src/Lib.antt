-- ===== src/Lib.antt =====
-- ezsp-spi: an EZSP-SPI host for the EM3581 radio co-processor (the NCP) of a Linksys router, and an
-- ASH bridge that lets a client on the network use that radio over TCP.
--
-- The program (package/ezsp-spi/src) is one process in layers. gpio.c and spi.c move lines and bytes;
-- board.c resets the NCP and wakes it; probe.c sends one command and classifies the reply; ezsp.c
-- puts EZSP frames into such commands; zcl.c answers for the node on the Zigbee network, and joins and
-- leaves one; control.c is the daemon, with its control socket and the commands that ask it; bridge.c
-- serves one TCP client, whose ASH frames it checks, acknowledges and relays to the NCP.
--
-- Modules and code:
--   Prelude         shared names, Boolean tests, lists with native indices, bits by tables
--   Text            the conversions of `printf` that the answers use; names of ezsp.c
--   Config          `struct cfg`, `struct pins` and the constants of ezsp-spi.h
--   Host            gpio.c, `spi_raw`, `write_all`, `die`: the process and what it sees of the kernel
--                   (Host.Run: rules for runs; Host.Discipline: a property of steps that sequences keep,
--                   with Host.Silent, Host.Lives and Host.Eats as its instances, and a module Steps in
--                   a component for the ladder of its operations)
--   Spi             spi.c: `cs_assert`, `cs_release`, `spi_txn_framed`, `spi_first_response`
--   Ncp             board.c: `ncp_reset`, `ncp_wake`
--   Board           board.c: `board_detect`, `pins_autodetect`, `pins_open`, `pins_close`
--   Probe           probe.c: `classify`, `do_cmd`
--   Ash             bridge.c: `ash_rand_init`, `ash_crc`, the stuffing of `ash_send`, the mask
--   Bridge          bridge.c: `struct bridge`, `ash_send*`, `ash_retransmit`
--     Relay         `ezsp_relay`, `ezsp_relay_callback`, `bridge_drain_callbacks`
--     Handle        `bridge_reset`, `bridge_handle_frame`, `bridge_feed`, `bridge_drop_client`
--     Loop          one turn of the loop of `cmd_bridge`, and any number of them
--   Ezsp            ezsp.c: `ezsp_xfer`, `ezsp_cmd`, `ezsp_init`, `ezsp_poll_callback`,
--                   `ezsp_permit`, `ezsp_set_config`; Scan: `scan_find`
--   Zcl             zcl.c: `zcl_send`, `zcl_append_attr`, `zcl_handle_incoming`, `zcl_report`,
--                   `report_interval`, `ezsp_add_endpoint`, `ezsp_apply_config`
--   Join            zcl.c: `cmd_join`, `cmd_leave`
--   Control         control.c: `parse_ext_pan_id`, with the `strtoul` of the C library
--     Status        `control_status`, and the answers to scan, neighbors and children
--     Serve         `control_accept`, and the requests that the commands send
--     Commands      `control_query`, `cmd_status`, `cmd_permit`, `cmd_power`, `cmd_verify`,
--                   `cmd_bootloader`
--   Run             control.c: `cmd_run`
--   Show            ezsp.c: `cmd_keys`, `cmd_neighbors`, `cmd_policy`, `cmd_config`, `cmd_info`,
--                   `cmd_scan`; probe.c: `cmd_probe`; spi.c: `decode_response`
--   Main            main.c: the options, the reversal of the ext pan id, the choice of the command
--   Fixtures        concrete processes and pins, which the modules Tests use
--
-- State and world. A function of the program that acts is a function from the process (`Host.Host`)
-- to an outcome: a result with the process behind it, or the end of the process by `die`. `Host`
-- holds the program's own static counters, and the world as lists of answers: the bytes that the NCP
-- shifts out, the levels and edges of nHOST_INT, what each `write` takes, and which ioctl fails, if
-- one does. Theorems take these lists as they come. What the process does, on the pins and the bus
-- (`wire`) and to its client (`net`), is logged newest first. Machine integers keep their
-- wrap-around (`% 256`, `% 2 ^ 32`, `sub_size` for `size_t`); a negative descriptor is `none`, and an
-- `int` that is printed is its 32 bits. A command starts with its pins and the SPI device open. What
-- is not under package/ezsp-spi/src is an argument: the clock, `rand`, the results of `getopt_long`, the
-- bytes that `read` gives of a client or a file, and the other end of the control socket. A text for a
-- client or a caller is a value, the list of its characters; what only goes to the log is left out.
--
-- Loops and bounds. The wait states, the scan, the wait of a join or leave and the tables of the
-- control socket count their own rounds, as in the code. The loop of `ash_retransmit` runs on seven
-- rounds of fuel, which is enough for three-bit frame numbers. The loop that drains callbacks in the
-- daemon runs on one round more than there are bytes left for the NCP to say, which is enough, since
-- each callback takes at least one. The loops of `cmd_bridge` and `cmd_run` never end in the code;
-- `run` and `run_turns` are any finite number of their turns. The loop of `parse_ext_pan_id` runs at
-- most eight rounds, one for each byte it stores.
--
-- Not modelled: opening devices and sockets, which is kernel glue (spi_open, bridge_listen,
-- control_listen, the ioctls of a line request); what only goes to the log or to a terminal
-- beside an answer (hexdump, usage, explain_busy, the progress of a join).
pub mod Prelude
pub mod Fixtures
pub mod Text
pub mod Config
pub mod Host
pub mod Spi
pub mod Ncp
pub mod Board
pub mod Probe
pub mod Ash
pub mod Bridge
pub mod Ezsp
pub mod Zcl
pub mod Join
pub mod Control
pub mod Run
pub mod Show
pub mod Main
