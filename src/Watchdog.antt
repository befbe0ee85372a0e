-- ===== src/Watchdog.antt =====
-- packet_audit/service_watchdog.py: the notifications to the service manager. Times are counted in
-- thirds of a microsecond, so that the interval of `from_environment`, a third of WATCHDOG_USEC, is
-- a whole number; the rounding of floats is not modelled.
pub mod Protocol
use packet_inspector_windows.Prelude.{
  ℕ, suc, ◌+◌, ◌^◌, ◌-◌, Bool, true, false, not, ◌&&◌, ◌||◌, Option, none, some, List, [], ◌∷◌,
  Text, leb, ltb, ◌==◌, is_nil, if◌then◌else◌,
}
use packet_inspector_windows.Prelude.Int.{ℤ, pos, negsuc}

-- The messages of `ServiceWatchdogError`.
pub data WatchdogFault : Type 0 where
  invalid_pid invalid_usec usec_without_socket bad_socket : WatchdogFault
  notification_failed progress_before_ready : WatchdogFault

-- The notifications, by their first lines.
pub data Message : Type 0 where
  ready_message watchdog_message stopping_message : Message

-- `sent` is what has reached the service manager, newest first.
pub record ServiceWatchdog : Type 0 where
  pub address : Option Text
  pub interval : ℕ
  pub owner_pid : ℕ
  pub ready_sent : Bool
  pub stopping_sent : Bool
  pub last_notification : ℕ
  pub sent : List Message

-- `__init__`, in the process `pid`.
unfoldable pub create : ℕ → Option Text → ℕ → ServiceWatchdog
create pid address interval = record {
  address = address;
  interval = interval;
  owner_pid = pid;
  ready_sent = false;
  stopping_sent = false;
  last_notification = 0;
  sent = [];
}

-- What `from_environment` raises or returns.
pub data Configured : Type 0 where
  refused : WatchdogFault → Configured
  configured : ServiceWatchdog → Configured

-- `not text`, for a variable of the environment: unset, or empty.
abbrev is_set : Option Text → Bool
is_set none = false
is_set (some text) = not (is_nil text)

abbrev text_of : Option Text → Text
text_of none = []
text_of (some text) = text

-- The address must be absolute or abstract: at least two characters, of which the first is "/" or "@".
abbrev is_socket : Text → Bool
is_socket (first ∷ _ ∷ _) = first == 47 || first == 64
is_socket _ = false

-- The test of the address, and the watchdog.
unfoldable pub finish_configuration : ℕ → Option Text → ℕ → Configured
unfolding create
finish_configuration pid address interval =
    if is_set address && not (is_socket (text_of address))
    then refused bad_socket
    else configured (create pid address interval)

-- What `int` reads in WATCHDOG_USEC.
unfoldable pub configure_interval : ℕ → Option Text → Option ℤ → Configured
unfolding finish_configuration
configure_interval pid address (some (pos (suc n))) =
    if leb (2 ^ 63) (n + 1)
    then refused invalid_usec
    else if not (is_set address)
    then refused usec_without_socket
    else finish_configuration pid address (n + 1)
configure_interval pid address _ = refused invalid_usec

unfoldable pub configure_usec : (Text → Option ℤ) → ℕ → Option Text → Option Text → Configured
unfolding configure_interval
configure_usec int pid address usec =
    if is_set usec
    then configure_interval pid address (int (text_of usec))
    else finish_configuration pid address 0

-- What `int` reads in WATCHDOG_PID: another process is left alone.
unfoldable pub configure_pid :
    (Text → Option ℤ) → ℕ → Option Text → Option Text → Option ℤ → Configured
unfolding configure_usec
configure_pid int pid address usec (some (pos intended)) =
    if intended == pid then configure_usec int pid address usec else configured (create pid none 0)
configure_pid int pid address usec (some (negsuc _)) = configured (create pid none 0)
configure_pid int pid address usec none = refused invalid_pid

-- `from_environment` in the process `pid`, from NOTIFY_SOCKET, WATCHDOG_PID and WATCHDOG_USEC. What
-- Python's `int` reads in a text, if it reads a number, is a parameter.
unfoldable pub from_environment :
    (Text → Option ℤ) → ℕ → Option Text → Option Text → Option Text → Configured
unfolding configure_pid
from_environment int pid address watchdog_pid usec =
    if is_set watchdog_pid
    then configure_pid int pid address usec (int (text_of watchdog_pid))
    else configure_usec int pid address usec

-- What a call leaves, and the error that it raises.
abbrev pub Called : Type 0
Called = ServiceWatchdog × Option WatchdogFault

-- `not self.address`: none, or empty.
abbrev pub has_address : Option Text → Bool
has_address none = false
has_address (some address) = not (is_nil address)

-- `_send` in the process `pid`, whose datagram goes through or not; then the assignments behind it.
unfoldable pub send :
    ℕ → Bool → Message → ServiceWatchdog → (ServiceWatchdog → ServiceWatchdog) → Called
send pid delivered message w then_set =
    if not (has_address w.address) || not (pid == w.owner_pid)
    then (then_set w, none)
    else if delivered
    then (then_set (record w { sent = message ∷ w.sent }), none)
    else (w, some notification_failed)

-- `ready`
unfoldable pub ready : ℕ → Bool → ℕ → ServiceWatchdog → Called
unfolding send
ready pid delivered clock w =
    if not (has_address w.address) || w.ready_sent
    then (w, none)
    else send pid delivered ready_message w
        (λ s. record s { ready_sent = true; last_notification = clock })

-- `progress`
unfoldable pub progress : ℕ → Bool → ℕ → ServiceWatchdog → Called
unfolding send
progress pid delivered clock w =
    if not (has_address w.address) || w.interval == 0 || w.stopping_sent
    then (w, none)
    else if not w.ready_sent
    then (w, some progress_before_ready)
    else if leb (w.last_notification + w.interval) clock
    then send pid delivered watchdog_message w (λ s. record s { last_notification = clock })
    else (w, none)

-- `stopping`
unfoldable pub stopping : ℕ → Bool → ServiceWatchdog → Called
unfolding send
stopping pid delivered w =
    if not (has_address w.address) || not w.ready_sent || w.stopping_sent
    then (w, none)
    else send pid delivered stopping_message w (λ s. record s { stopping_sent = true })
