-- ===== src/Spi/Steps.antt =====
-- A transaction of `spi_txn_framed`, for any discipline of steps (package/ezsp-spi/src/spi.c).
use openwrt_ezsp_spi.Prelude.{
  ℕ, zero, suc, Bool, Option, none, some, List, [], ◌∷◌, ◌==◌, ◌!=◌, if◌then◌else◌, length,
  replicate, is_some, ltb, leb, true, false,
}
use openwrt_ezsp_spi.Config.{Cfg, Pins, spi_idle, spi_cmd_ezsp_frame, spi_err_unsupported}
use openwrt_ezsp_spi.Host.{pure, ◌>>=◌, gpio_set, spi_raw}
use openwrt_ezsp_spi.Host.Discipline.{Discipline, of_then, of_if}
use openwrt_ezsp_spi.Spi.{
  drive_if, cs_assert, cs_release, spi_byte, wait_states, frame_head, response_head, finish,
  collect, no_response, send_command, spi_txn_framed,
}

module _ (d : Discipline) where
  open d use {Holds, of_bind, of_pure, of_gpio_set, of_spi_raw}

  drive_if-Holds : (flag : Bool) (line : Option ℕ) (v : Bool) → Holds (drive_if flag line v)
  unfolding drive_if
  drive_if-Holds flag none v = of_pure tt
  drive_if-Holds flag (some line) v =
      of_if d flag (gpio_set line v) (pure tt) (of_gpio_set line v) (of_pure tt)

  pub cs_assert-Holds : (p : Pins) → Holds (cs_assert p)
  unfolding cs_assert
  cs_assert-Holds p =
      of_then d (drive_if true p.cs false) _ (drive_if-Holds true p.cs false)
        (drive_if-Holds p.follows p.nssel_int false)

  cs_release-Holds : (p : Pins) → Holds (cs_release p)
  unfolding cs_release
  cs_release-Holds p =
      of_then d (drive_if true p.cs true) _ (drive_if-Holds true p.cs true)
        (drive_if-Holds p.follows p.nssel_int true)

  spi_byte-Holds : Holds spi_byte
  unfolding spi_byte
  spi_byte-Holds = of_bind (spi_raw (spi_idle ∷ []) true) _ (of_spi_raw _ _) (λ r. of_pure _)

  pub wait_states-Holds : (n : ℕ) → Holds (wait_states n)
  unfolding wait_states
  wait_states-Holds zero = of_pure spi_idle
  wait_states-Holds (suc n) =
      of_bind spi_byte _ spi_byte-Holds
        (λ b. of_if d (b == spi_idle) (wait_states n) (pure b) (wait_states-Holds n) (of_pure b))

  frame_head-Holds : (b : ℕ) → Holds (frame_head b)
  unfolding frame_head
  frame_head-Holds b = of_bind spi_byte _ spi_byte-Holds (λ len. of_pure _)

  response_head-Holds : (rxlen b : ℕ) → Holds (response_head rxlen b)
  unfolding response_head
  response_head-Holds rxlen b =
      of_if d (b == spi_cmd_ezsp_frame) _ _
        (of_if d (ltb 1 rxlen) (frame_head b) _ (frame_head-Holds b) (of_pure _))
        (of_if d (leb b spi_err_unsupported) _ _ (of_pure _) (of_pure _))

  finish-Holds : (p : Pins) (rx : List ℕ) (remain : ℕ) → Holds (finish p rx remain)
  unfolding finish
  finish-Holds p rx remain =
      of_if d (remain != 0) _ _
        (of_bind (spi_raw (replicate remain spi_idle) (is_some p.cs)) _ (of_spi_raw _ _)
          (λ xs. of_pure _))
        (of_if d (is_some p.cs) _ _ (of_pure rx)
          (of_bind (spi_raw (spi_idle ∷ []) false) _ (of_spi_raw _ _) (λ b. of_pure rx)))

  collect-Holds : (p : Pins) (rxlen b : ℕ) → Holds (collect p rxlen b)
  unfolding collect
  collect-Holds p rxlen b = of_bind (response_head rxlen b) _ (response_head-Holds rxlen b) (λ head.
      of_bind (finish p head.0 _) _ (finish-Holds p head.0 _)
        (λ rx. of_then d (cs_release p) (pure rx) (cs_release-Holds p) (of_pure rx)))

  pub no_response-Holds : (p : Pins) → Holds (no_response p)
  unfolding no_response
  no_response-Holds p =
      of_if d (is_some p.cs) _ _
        (of_then d (cs_release p) (pure []) (cs_release-Holds p) (of_pure []))
        (of_bind (spi_raw (spi_idle ∷ []) false) _ (of_spi_raw _ _) (λ b. of_pure []))

  pub send_command-Holds : (tx : List ℕ) → Holds (send_command tx)
  unfolding send_command
  send_command-Holds tx =
      of_if d (length tx != 0) _ _
        (of_bind (spi_raw tx true) _ (of_spi_raw tx true) (λ r. of_pure tt)) (of_pure tt)

  -- What follows the command: the wait for a response, and the response.
  pub rest-Holds :
      (c : Cfg) (p : Pins) (rxlen : ℕ)
      → Holds (
          wait_states c.wait_bytes
          >>= (λ b. if b == spi_idle then no_response p else collect p rxlen b))
  rest-Holds c p rxlen = of_bind (wait_states c.wait_bytes) _ (wait_states-Holds c.wait_bytes) (λ b.
      of_if d (b == spi_idle) (no_response p) (collect p rxlen b) (no_response-Holds p)
        (collect-Holds p rxlen b))

  pub txn-Holds :
      (c : Cfg) (p : Pins) (tx : List ℕ) (rxlen : ℕ) → Holds (spi_txn_framed c p tx rxlen)
  unfolding spi_txn_framed
  txn-Holds c p tx rxlen =
      of_then d (cs_assert p) _ (cs_assert-Holds p)
        (of_then d (send_command tx) _ (send_command-Holds tx) (rest-Holds c p rxlen))
