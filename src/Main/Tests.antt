-- ===== src/Main/Tests.antt =====
-- The command line on a concrete list of options.
use openwrt_ezsp_spi.Prelude.{true, ◌≡◌, refl, false, some, List, [], ◌∷◌}
use openwrt_ezsp_spi.Config.{defaults}
use openwrt_ezsp_spi.Board.{velop_v1, with_board, pins_autodetect, follow}
use openwrt_ezsp_spi.Text.{codes}
use openwrt_ezsp_spi.Control.{parse_ext_pan_id, strtoul}
use openwrt_ezsp_spi.Control.Number.{number, base_of}
use openwrt_ezsp_spi.Control.Serve.{Longs}
use openwrt_ezsp_spi.Main.{
  opt_nssel_int, opt_reset, go, Setup, Started, starts, dead, usage, Opt, opt_reverse_ext_pan_id,
  opt_ext_pan_id, opt_channel, main, run_join, read_options, set_option, store_ext_pan_id, start,
  command_of, turned, reversed, swap,
}
use openwrt_ezsp_spi.Main.ExtPanId.{main-ext_pan_id}
use openwrt_ezsp_spi.Main.Lines.{nssel_int, autodetect-given}

abbrev longs : Longs
longs = record { ulong_max = 0xFFFFFFFF; long_max = 0x7FFFFFFF }

abbrev shipped : Setup
shipped = record {
  cfg = defaults;
  lines = record {
    reset_line = 49;
    wake_line = 31;
    int_line = 50;
    nssel_int_line = 29;
    cs_line = 45;
    reset_set = false;
    wake_set = false;
    int_set = false;
    nssel_int_set = false;
    cs_set = false;
    mode = follow;
  };
  spidev = codes "/dev/spidev1.0";
  gpiochip = codes "/dev/gpiochip0";
  sock_path = codes "/var/run/ezsp-spi.sock";
  bind_addr = codes "0.0.0.0";
  bridge_port = 8888;
  speed = 1000000;
  verbose = false;
  reverse_ext_pan_id = false;
}

abbrev setup_of : Started → Setup
setup_of (starts command s) = s
setup_of dead = shipped
setup_of (usage status) = shipped

-- The reversal comes first, the text behind it.
abbrev options : List Opt
options =
    opt_reverse_ext_pan_id
    ∷ opt_ext_pan_id (codes "1,2,3,4,5,6,7,255")
    ∷ opt_channel (codes "0x0F")
    ∷ []

join_starts :
    main longs shipped (some (codes "join")) options
    ≡ starts run_join (setup_of (main longs shipped (some (codes "join")) options))
unfolding main read_options set_option number base_of parse_ext_pan_id store_ext_pan_id start
    command_of turned reversed swap
join_starts = refl

text_parses :
    parse_ext_pan_id 0xFFFFFFFF (codes "1,2,3,4,5,6,7,255")
    ≡ some (1 ∷ 2 ∷ 3 ∷ 4 ∷ 5 ∷ 6 ∷ 7 ∷ 255 ∷ [])
unfolding parse_ext_pan_id
text_parses = refl

main-ext_pan_id_example :
    (setup_of (main longs shipped (some (codes "join")) options)).cfg.ext_pan_id
    ≡ 255 ∷ 7 ∷ 6 ∷ 5 ∷ 4 ∷ 3 ∷ 2 ∷ 1 ∷ []
main-ext_pan_id_example =
    main-ext_pan_id longs shipped (codes "join") (opt_reverse_ext_pan_id ∷ [])
      (opt_channel (codes "0x0F") ∷ []) (codes "1,2,3,4,5,6,7,255")
      (1 ∷ 2 ∷ 3 ∷ 4 ∷ 5 ∷ 6 ∷ 7 ∷ 255 ∷ []) text_parses (refl, tt) join_starts (λ e. cc)

-- On a V1, whose board has its nSSEL_INT elsewhere.
abbrev lines_given : List Opt
lines_given = opt_nssel_int (codes "29") ∷ opt_nssel_int (codes "0x39") ∷ opt_reset (codes "7") ∷ []

abbrev given_setup : Setup
given_setup = record shipped {
  lines = record shipped.lines {
    nssel_int_line = 57;
    nssel_int_set = true;
    reset_line = 7;
    reset_set = true;
  };
}

lines_parsed : read_options longs shipped lines_given ≡ go given_setup
unfolding read_options set_option number base_of strtoul
lines_parsed = refl

lines_detected :
    pins_autodetect given_setup.lines (some velop_v1) ≡ some (with_board given_setup.lines velop_v1)
unfolding pins_autodetect
lines_detected = refl

autodetect-given_example :
    (with_board given_setup.lines velop_v1).nssel_int_line ≡ number longs (codes "0x39")
autodetect-given_example =
    autodetect-given longs nssel_int shipped (opt_nssel_int (codes "29") ∷ [])
      (opt_reset (codes "7") ∷ []) (codes "0x39") (some velop_v1) (refl, tt) lines_parsed
      lines_detected
