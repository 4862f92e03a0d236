-- ===== src/Show/Names.antt =====
-- package/ezsp-spi/src/ezsp.c: the names of configuration values and policies.
use openwrt_ezsp_spi.Prelude.{ℕ, List, [], ◌==◌, not, if◌then◌else◌}
use openwrt_ezsp_spi.Text.{codes}

unfoldable pub ezsp_config_name : ℕ → List ℕ
ezsp_config_name id =
    if id == 0x01
    then codes "packet buffer count"
    else if id == 0x02
    then codes "neighbor table size"
    else if id == 0x03
    then codes "aps unicast message count"
    else if id == 0x04
    then codes "binding table size"
    else if id == 0x05
    then codes "address table size"
    else if id == 0x06
    then codes "multicast table size"
    else if id == 0x07
    then codes "route table size"
    else if id == 0x08
    then codes "discovery table size"
    else if id == 0x0C
    then codes "stack profile"
    else if id == 0x0D
    then codes "security level"
    else if id == 0x10
    then codes "max hops"
    else if id == 0x11
    then codes "max end device children"
    else if id == 0x12
    then codes "indirect transmission timeout"
    else if id == 0x13
    then codes "end device poll timeout"
    else if id == 0x17
    then codes "tx power mode"
    else if id == 0x18
    then codes "disable relay"
    else if id == 0x19
    then codes "trust center address cache size"
    else if id == 0x1A
    then codes "source route table size"
    else if id == 0x1E
    then codes "key table size"
    else if id == 0x1F
    then codes "aps ack timeout"
    else if id == 0x20
    then codes "active scan duration"
    else if id == 0x22
    then codes "pan id conflict report threshold"
    else if id == 0x24
    then codes "request key timeout"
    else if id == 0x2A
    then codes "application zdo flags"
    else if id == 0x2B
    then codes "broadcast table size"
    else if id == 0x2C
    then codes "mac filter table size"
    else if id == 0x2D
    then codes "supported networks"
    else if id == 0x36
    then codes "transient key timeout"
    else []

unfoldable pub ezsp_policy_name : ℕ → List ℕ
ezsp_policy_name id =
    if id == 0x00
    then codes "trust center"
    else if id == 0x01
    then codes "binding modification"
    else if id == 0x02
    then codes "unicast replies"
    else if id == 0x03
    then codes "poll handler"
    else if id == 0x04
    then codes "message contents in callback"
    else if id == 0x05
    then codes "tc key request"
    else if id == 0x06
    then codes "app key request"
    else if id == 0x07
    then codes "packet validate library"
    else if id == 0x08
    then codes "zll"
    else []

unfoldable pub ezsp_decision_hint : ℕ → ℕ → List ℕ
ezsp_decision_hint policy decision =
    if not (policy == 0x02)
    then []
    else if decision == 0x20
    then codes "  <- NCP replies (wanted)"
    else if decision == 0x21
    then codes "  <- HOST must reply (breaks relaying)"
    else []
