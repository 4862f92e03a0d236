-- ===== src/Join/Tests.antt =====
-- A join and a leave on an NCP that plays along (package/ezsp-spi/src/zcl.c).
use openwrt_ezsp_spi.Prelude.{ℕ, ◌≡◌, refl, true, false, none, some, List, [], ◌∷◌, ◌++◌, replicate}
use openwrt_ezsp_spi.Config.{Cfg}
use openwrt_ezsp_spi.Host.{Host, ok, ioctl, gpio_set, spi_raw}
use openwrt_ezsp_spi.Host.Total.{Gives}
use openwrt_ezsp_spi.Fixtures.{host_of, host_after, quick, own_pins, after_idle}
use openwrt_ezsp_spi.Spi.{
  cs_assert, cs_release, send_command, wait_states, spi_byte, collect, response_head, finish,
  clamp_remain, spi_first_response, spi_txn_framed,
}
use openwrt_ezsp_spi.Probe.{do_cmd, attempt, prepare, classify, class_of, is_reset, is_ezsp}
use openwrt_ezsp_spi.Ezsp.{
  ezsp_init, ask_version, set_version, reported, settle, ezsp_cmd, payload_of, ezsp_xfer, next_seq,
  xfer_frame, header, header_layout, reply_of, succeeded, ezsp_set_config, ezsp_poll_callback,
  callback_id,
}
use openwrt_ezsp_spi.Zcl.{ezsp_apply_config, ezsp_add_endpoint}
use openwrt_ezsp_spi.Join.{cmd_join, bring_up, stored, cmd_leave, leave_network, wait_leave}
use openwrt_ezsp_spi.Join.Campaign.{Campaign}
use openwrt_ezsp_spi.Join.Lives.{cmd_join_returns}

-- No reset and no scan, one retry.
abbrev joiner : Cfg
joiner = record quick {
  no_reset = true;
  wake_handshake = false;
  channel = 15;
  pan_id = some 0x1A62;
  have_ext_pan_id = true;
  ext_pan_id = 1 ∷ 2 ∷ 3 ∷ 4 ∷ 5 ∷ 6 ∷ 7 ∷ 8 ∷ [];
  join_timeout = 1;
  join_retries = 1;
  no_precheck = true;
}

-- A reply of one status to the command `id`.
abbrev status_reply : ℕ → ℕ → List ℕ
status_reply id s = 0xFE ∷ 0x04 ∷ 0x00 ∷ 0x80 ∷ id ∷ s ∷ 0xA7 ∷ []

-- The version, four values, the endpoint, and what follows.
abbrev configured : List ℕ → List ℕ
configured rest =
    after_idle 7 (0xFE ∷ 0x07 ∷ 0x00 ∷ 0x80 ∷ 0x00 ∷ 0x04 ∷ 0x02 ∷ 0x10 ∷ 0x58 ∷ 0xA7 ∷ [])
    ++ (after_idle 9 (status_reply 0x53 0)
        ++ (after_idle 9 (status_reply 0x53 0)
            ++ (after_idle 9 (status_reply 0x53 0)
                ++ (after_idle 9 (status_reply 0x53 0)
                    ++ (after_idle 16 (status_reply 0x02 0) ++ rest)))))

abbrev join_ncp : Host
join_ncp = host_of (
    configured (
      after_idle 7 (0xFE ∷ 0x06 ∷ 0x00 ∷ 0x80 ∷ 0x52 ∷ 0x00 ∷ 0x02 ∷ 0x00 ∷ 0xA7 ∷ [])
      ++ (after_idle 48 (status_reply 0x68 0)
          ++ (after_idle 27 (status_reply 0x1F 0) ++ after_idle 6 (status_reply 0x19 0x90)))))

abbrev leave_ncp : Host
leave_ncp = host_of (
    configured (
      after_idle 6 (status_reply 0x17 0)
      ++ (after_idle 6 (status_reply 0x20 0) ++ after_idle 6 (status_reply 0x19 0x91))))

abbrev buffer : List ℕ
buffer = replicate 64 0

leave_run :
    cmd_leave joiner own_pins buffer leave_ncp
    ≡ ok true (host_after (cmd_leave joiner own_pins buffer leave_ncp))
unfolding cmd_leave leave_network wait_leave stored bring_up ezsp_init ask_version set_version
    reported settle ezsp_cmd payload_of ezsp_xfer next_seq xfer_frame header header_layout reply_of
    succeeded ezsp_set_config ezsp_poll_callback callback_id do_cmd attempt prepare classify
    class_of is_reset is_ezsp spi_first_response spi_txn_framed cs_assert cs_release send_command
    wait_states spi_byte collect response_head finish clamp_remain spi_raw gpio_set ioctl
    ezsp_apply_config ezsp_add_endpoint
leave_run = refl

cmd_join_returns_example :
    Gives (λ joined h'. h'.dies ≡ none) (cmd_join joiner own_pins buffer join_ncp)
cmd_join_returns_example =
    cmd_join_returns joiner own_pins buffer 0x1A62 join_ncp refl refl refl refl

-- An NCP that scans, and hears the network with permit-join open.
abbrev scanner : Cfg
scanner = record joiner { no_precheck = false }

abbrev beacon_ncp : Host
beacon_ncp = host_of (
    after_idle 12 (status_reply 0x1A 0)
    ++ after_idle 6 (
        0xFE ∷ 0x13 ∷ 0x00 ∷ 0x80 ∷ 0x1B ∷ 0x0F ∷ 0x62 ∷ 0x1A ∷ 0x11 ∷ 0x22 ∷ 0x33 ∷ 0x44 ∷ 0x55
        ∷ 0x66 ∷ 0x77 ∷ 0x88 ∷ 0x01 ∷ 0x02 ∷ 0x03 ∷ 0xC8 ∷ 0xD0 ∷ 0xA7 ∷ []))

abbrev target : List ℕ × ℕ
target = (0x11 ∷ 0x22 ∷ 0x33 ∷ 0x44 ∷ 0x55 ∷ 0x66 ∷ 0x77 ∷ 0x88 ∷ [], 3)
