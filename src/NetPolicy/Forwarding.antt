-- ===== src/NetPolicy/Forwarding.antt =====
-- internal/netpolicy/forwarding_linux.go: the kernel switch `net.ipv4.ip_forward`. `current` is what
-- the file holds, `none` if it cannot be read; `writable` says whether a write succeeds.
use seine.Prelude.{String, Bool, Option, none, some, ◌==◌, if◌then◌else◌}
use seine.Prelude.Text.{trim_space}

pub data ForwardingError : Type 0 where
  read write : ForwardingError

-- The error if there is one, and what the file holds afterwards.
unfoldable pub ensure_ip_forwarding : Option String → Bool → Option ForwardingError × Option String
unfolding trim_space
ensure_ip_forwarding none writable = (some read, none)
ensure_ip_forwarding (some current) writable =
    if trim_space current == "1"
    then (none, some current)
    else if writable
    then (none, some "1\n")
    else (some write, some current)
