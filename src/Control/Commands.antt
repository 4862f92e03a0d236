-- ===== src/Control/Commands.antt =====
-- package/ezsp-spi/src/control.c: the commands `status`, `permit`, `power`, `verify` and
-- `bootloader`. A result is the exit status and the text of the answer, without what the
-- negotiation and the configuration print on the way. The pins and the SPI device are open (`p`).
use openwrt_ezsp_spi.Prelude.{
  ◌==◌, ℕ, Bool, false, ◌&&◌, ◌||◌, not, Option, none, some, List, [], ◌∷◌, ◌++◌, length, get_or,
  bytes_at, ltb, leb, ◌!=◌, if◌then◌else◌,
}
use openwrt_ezsp_spi.Config.{
  Cfg, Pins, ember_success, ember_not_joined, ezsp_network_init, ezsp_get_bootloader_version,
}
use openwrt_ezsp_spi.Host.{died, M, pure, ◌>>=◌}
use openwrt_ezsp_spi.Text.{codes, hex2, newline}
use openwrt_ezsp_spi.Ezsp.{ezsp_cmd, ezsp_permit, ezsp_set_power, status_of}
use openwrt_ezsp_spi.Zcl.{ezsp_apply_config}
use openwrt_ezsp_spi.Join.{bring_up}
use openwrt_ezsp_spi.Control.Status.{control_status}
use openwrt_ezsp_spi.Control.Serve.{
  Longs, equal_texts, permit_seconds, permit_request, power_of, power_request,
}

-- What `control_query` finds: whether `socket`, `connect` and `write` succeed, and what each `read`
-- gives; a read that fails gives nothing.
pub record Talk : Type 0 where
  pub has_socket : Bool
  pub connects : Bool
  pub writes : Bool
  pub reads : List (List ℕ)

-- `fputs` prints up to the first NUL.
unfoldable pub up_to_nul : List ℕ → List ℕ
up_to_nul [] = []
up_to_nul (ch ∷ text) = if ch == 0 then [] else ch ∷ up_to_nul text

-- The loop ends with the first read that gives nothing.
unfoldable pub print_reads : List (List ℕ) → List ℕ
unfolding up_to_nul
print_reads [] = []
print_reads ([] ∷ reads) = []
print_reads ((ch ∷ text) ∷ reads) = up_to_nul (ch ∷ text) ++ print_reads reads

-- What is printed of a daemon's answer; `none` is -1, there is no socket to talk to.
unfoldable pub control_query : Talk → Option (List ℕ)
unfolding print_reads
control_query t =
    if not t.has_socket
    then none
    else if not t.connects
    then none
    else if not t.writes
    then none
    else some (print_reads t.reads)

-- How the other end of the socket reacts to a request.
abbrev pub Peer : Type 0
Peer = List ℕ → Talk

abbrev pub Result : Type 0
Result = ℕ × List ℕ

-- `n >= 1 && out[0] != EMBER_SUCCESS`
unfoldable pub went_wrong : Option (List ℕ) → Bool
went_wrong none = false
went_wrong (some []) = false
went_wrong (some (s ∷ rest)) = s != ember_success

-- A daemon's answer, or what the command does by itself.
unfoldable pub ask_daemon : Option (List ℕ) → M Result → M Result
ask_daemon none alone = alone
ask_daemon (some text) alone = pure (0, text)

unfoldable pub init_text : Option (List ℕ) → List ℕ
unfolding went_wrong
init_text r =
    if went_wrong r && status_of r != ember_not_joined
    then codes "networkinit: 0x" ++ (hex2 (status_of r) ++ newline)
    else []

unfoldable pub cmd_status : Peer → Cfg → Pins → Option ℕ → M Result
unfolding ask_daemon init_text
cmd_status daemon c p age = ask_daemon (control_query (daemon (codes "status" ++ newline))) (do
  ready ← bring_up c p
  if not ready then pure (1, codes "state: unavailable" ++ newline) else (do
    endpoint ← ezsp_apply_config c p
    r ← ezsp_cmd c p ezsp_network_init [] 64
    text ← control_status c p age
    pure (0, init_text r ++ text)))

-- `n < 0 ? 1 : 0`
unfoldable pub exit_of : Bool × List ℕ → Result
exit_of r = (if r.0 then 0 else 1, r.1)

unfoldable pub permit_alone : Cfg → Pins → ℕ → M Result
unfolding went_wrong exit_of
permit_alone c p secs = do
  ready ← bring_up c p
  if not ready then pure (1, []) else (do
    endpoint ← ezsp_apply_config c p
    r ← ezsp_cmd c p ezsp_network_init [] 64
    if went_wrong r
        then pure (
          1,
          codes "not on a network (status 0x" ++ (hex2 (status_of r) ++ (codes ")" ++ newline)),
        )
        else (do done ← ezsp_permit c p secs; pure (exit_of done)))

unfoldable pub cmd_permit : Peer → Longs → Cfg → Pins → Option (List ℕ) → M Result
unfolding ask_daemon permit_alone permit_seconds permit_request
cmd_permit daemon l c p arg =
    ask_daemon (control_query (daemon (permit_request (permit_seconds l arg))))
      (permit_alone c p (permit_seconds l arg))

unfoldable pub power_alone : Cfg → Pins → ℕ → M Result
unfolding exit_of
power_alone c p dbm = do
  ready ← bring_up c p
  if not ready then pure (1, []) else (do
    endpoint ← ezsp_apply_config c p
    r ← ezsp_cmd c p ezsp_network_init [] 64
    done ← ezsp_set_power c p dbm
    pure (exit_of done))

unfoldable pub cmd_power : Peer → Longs → Cfg → Pins → Option (List ℕ) → M Result
unfolding ask_daemon power_alone power_of power_request
cmd_power daemon l c p arg =
    ask_daemon (control_query (daemon (power_request (power_of l arg))))
      (power_alone c p (power_of l arg))

abbrev pub ebl_sig : List ℕ
ebl_sig = 0x02 ∷ 0x02 ∷ 0xE3 ∷ 0x50 ∷ []

unfoldable pub is_ebl : List ℕ → Bool
unfolding equal_texts
is_ebl hdr = equal_texts (bytes_at hdr 4 4) ebl_sig

-- Platform, micro and phy: the NCP's, against those of the header.
unfoldable pub same_chip : List ℕ → List ℕ → Bool
same_chip out hdr = not (
    get_or out 2 0 != get_or hdr 0x28 0
    || (get_or out 3 0 != get_or hdr 0x29 0 || get_or out 4 0 != get_or hdr 0x2A 0))

-- What the NCP says of itself, if it says enough.
unfoldable pub chip_matches : List ℕ → Option (List ℕ) → Bool
unfolding same_chip
chip_matches hdr none = false
chip_matches hdr (some out) = if ltb (length out) 5 then false else same_chip out hdr

unfoldable pub verify_chip : Cfg → Pins → List ℕ → M Bool
unfolding chip_matches
verify_chip c p hdr = do
  ready ← bring_up c p
  if not ready
      then pure false
      else (do r ← ezsp_cmd c p ezsp_get_bootloader_version [] 16; pure (chip_matches hdr r))

-- What `fread` gives of the file, or `none` if it cannot be opened; `true` is the exit status 0.
unfoldable pub cmd_verify : Cfg → Pins → Option (List ℕ) → M Bool
cmd_verify c p none = λ h. died
cmd_verify c p (some hdr) =
    if ltb (length hdr) 0x40
    then (λ h. died)
    else if not (is_ebl hdr)
    then pure false
    else verify_chip c p hdr

-- Whether the NCP reports a standalone bootloader.
unfoldable pub reports_bootloader : Option (List ℕ) → Bool
reports_bootloader none = false
reports_bootloader (some out) = leb 5 (length out)

unfoldable pub cmd_bootloader : Cfg → Pins → M Bool
unfolding reports_bootloader
cmd_bootloader c p = do
  ready ← bring_up c p
  if not ready
      then pure false
      else (do r ← ezsp_cmd c p ezsp_get_bootloader_version [] 16; pure (reports_bootloader r))
