-- ===== src/Control/Serve.antt =====
-- package/ezsp-spi/src/control.c: `control_accept`, one client of the control socket.
-- What `read` gives is an argument, and the answer is the text that is written to the client.
use openwrt_ezsp_spi.Prelude.{
  ℕ, suc, ◌-◌, ◌%◌, ◌^◌, Bool, true, false, ◌&&◌, ◌||◌, Option, none, some, List, [], ◌∷◌, ◌++◌,
  drop, take, get_or, ◌==◌, if◌then◌else◌, min,
}
use openwrt_ezsp_spi.Config.{Cfg, Pins}
use openwrt_ezsp_spi.Host.{M, pure, ◌>>=◌}
use openwrt_ezsp_spi.Ezsp.{ezsp_permit, ezsp_set_power}
use openwrt_ezsp_spi.Board.{starts_with}
use openwrt_ezsp_spi.Text.{codes, unsigned, signed, newline}
use openwrt_ezsp_spi.Control.{strtoul, skip_space, read_sign, read_digits}
use openwrt_ezsp_spi.Control.Status.{
  control_status, control_scan, control_neighbors, control_children,
}

-- The sizes of the C types `unsigned long` and `long`.
pub record Longs : Type 0 where
  pub ulong_max : ℕ
  pub long_max : ℕ

-- `(unsigned)strtoul(text, NULL, 10)`
unfoldable pub to_unsigned : ℕ → List ℕ → ℕ
to_unsigned ulong_max text = elim (strtoul ulong_max 10 text) [ none ↦ 0 | some r ↦ r.0 % 2 ^ 32 ]

-- `(int)strtol(text, NULL, 10)`, in its 32 bits; without digits the number is 0.
unfoldable pub to_int : ℕ → List ℕ → ℕ
unfolding skip_space read_sign read_digits
to_int long_max text =
    let s = read_sign (skip_space text) in
    let v = (read_digits 10 0 (s.1)).0 in
    if s.0 then (2 ^ 32 - min v (suc long_max) % 2 ^ 32) % 2 ^ 32 else min v long_max % 2 ^ 32

-- Up to the first NUL or end of line.
unfoldable pub first_line : List ℕ → List ℕ
first_line [] = []
first_line (ch ∷ text) = if ch == 0 || (ch == 10 || ch == 13) then [] else ch ∷ first_line text

-- `!strcmp`
unfoldable pub equal_texts : List ℕ → List ℕ → Bool
equal_texts [] [] = true
equal_texts [] (y ∷ ys) = false
equal_texts (x ∷ xs) [] = false
equal_texts (x ∷ xs) (y ∷ ys) = x == y && equal_texts xs ys

pub data Request : Type 0 where
  status scan neighbors children unknown : Request
  power permit : ℕ → Request

-- The number behind a word of `n` characters, if a space follows it.
unfoldable pub argument : List ℕ → ℕ → Option (List ℕ)
argument req n = if get_or req n 0 == 32 then some (drop (suc n) req) else none

unfoldable pub power_of : Longs → Option (List ℕ) → ℕ
unfolding to_int
power_of l none = 8
power_of l (some text) = to_int l.long_max text

unfoldable pub seconds_of : Longs → Option (List ℕ) → ℕ
unfolding to_unsigned
seconds_of l none = 180
seconds_of l (some text) = to_unsigned l.ulong_max text

-- What a line asks for.
unfoldable pub request_of : Longs → List ℕ → Request
unfolding equal_texts argument power_of seconds_of starts_with
request_of l req =
    if equal_texts req (codes "status")
    then status
    else if equal_texts req (codes "scan")
    then scan
    else if equal_texts req (codes "neighbors")
    then neighbors
    else if equal_texts req (codes "children")
    then children
    else if starts_with req (codes "power")
    then power (power_of l (argument req 5))
    else if starts_with req (codes "permit")
    then permit (seconds_of l (argument req 6))
    else unknown

abbrev pub usage_text : List ℕ
usage_text =
    codes "error: unknown command"
    ++ (newline
        ++ (codes "commands: status scan children neighbors permit [seconds]"
            ++ (newline ++ (codes "          power [dbm]" ++ newline))))

-- The answer to a request; `age` as for `control_status`.
unfoldable pub reply_to : Cfg → Pins → Option ℕ → Request → M (List ℕ)
reply_to c p age status = control_status c p age
reply_to c p age scan = control_scan c p
reply_to c p age neighbors = control_neighbors c p
reply_to c p age children = control_children c p
reply_to c p age (power dbm) = do r ← ezsp_set_power c p dbm; pure (r.1)
reply_to c p age (permit secs) = do r ← ezsp_permit c p secs; pure (r.1)
reply_to c p age unknown = pure usage_text

-- One client: what `read` takes of its request, if anything, and what is written back.
unfoldable pub control_accept : Longs → Cfg → Pins → Option ℕ → List ℕ → M (List ℕ)
unfolding request_of reply_to first_line
control_accept l c p age [] = pure []
control_accept l c p age (ch ∷ text) =
    reply_to c p age (request_of l (first_line (take 63 (ch ∷ text))))

-- `cmd_permit`: the seconds for an argument, and the request to the daemon.
unfoldable pub permit_seconds : Longs → Option (List ℕ) → ℕ
unfolding seconds_of
permit_seconds l arg = let secs = seconds_of l arg in if secs == 0 then 180 else secs

unfoldable pub permit_request : ℕ → List ℕ
permit_request secs = codes "permit " ++ (unsigned secs ++ newline)

-- `cmd_power`.
unfoldable pub power_request : ℕ → List ℕ
power_request dbm = codes "power " ++ (signed dbm ++ newline)
