-- ===== src/Join/Success.antt =====
-- When `cmd_join` and `cmd_leave` succeed (package/ezsp-spi/src/zcl.c).
use openwrt_ezsp_spi.Prelude.{ℕ, ◌≡◌, refl, Bool, true, false, not, List, []}
use openwrt_ezsp_spi.Config.{Cfg, Pins, ember_network_down, ezsp_network_init, ezsp_leave_network}
use openwrt_ezsp_spi.Host.{Host, ok, pure}
use openwrt_ezsp_spi.Host.Run.{Ensures, returns, Ensures-ok, Ensures-any, Ensures-if}
use openwrt_ezsp_spi.Ezsp.{ezsp_cmd, succeeded}
use openwrt_ezsp_spi.Zcl.{ezsp_apply_config}
use openwrt_ezsp_spi.Join.{bring_up, stored, leave_network, cmd_leave}
use openwrt_ezsp_spi.Join.Watch.{Reported, wait_leave-Reported}

-- Success only behind a poll that reported the status.
abbrev pub OnlyBehind : Cfg → Pins → ℕ → Bool → Host → Type 0
OnlyBehind c p status done h' = done ≡ true → Reported c p status h'

failure :
    (c : Cfg) (p : Pins) (status : ℕ) (h : Host) → Ensures (OnlyBehind c p status) (pure false h)
failure c p status h = returns (λ e. cc)

leave_network-OnlyBehind :
    (c : Cfg) (p : Pins) (out : List ℕ) (h : Host)
    → Ensures (OnlyBehind c p ember_network_down) (leave_network c p out h)
unfolding leave_network
leave_network-OnlyBehind c p out h = Ensures-any (ezsp_apply_config c p) _ h (λ endpoint h₁.
    Ensures-any (ezsp_cmd c p ezsp_network_init [] 64) _ h₁ (λ restored h₂.
      Ensures-any (ezsp_cmd c p ezsp_leave_network [] 64) _ h₂ (λ left h₃.
        Ensures-if (not (succeeded left)) _ _ h₃ (failure c p ember_network_down h₃)
          (wait_leave-Reported 40 c p (stored left (stored restored out)) h₃))))

leave_run-OnlyBehind :
    (c : Cfg) (p : Pins) (out : List ℕ) (h : Host)
    → Ensures (OnlyBehind c p ember_network_down) (cmd_leave c p out h)
unfolding cmd_leave
leave_run-OnlyBehind c p out h = Ensures-any (bring_up c p) _ h (λ ready h₁.
    Ensures-if (not ready) _ _ h₁ (failure c p ember_network_down h₁)
      (leave_network-OnlyBehind c p out h₁))

-- When the leave command reports success, the very last thing that it asked of the NCP was a
-- callback, and that callback was a stack status of NETWORK_DOWN.
pub cmd_leave-Reported :
    (c : Cfg) (p : Pins) (out : List ℕ) (h : Host) {h' : Host}
    → cmd_leave c p out h ≡ ok true h'
    → Reported c p ember_network_down h'
cmd_leave-Reported c p out h e = Ensures-ok (leave_run-OnlyBehind c p out h) e refl
