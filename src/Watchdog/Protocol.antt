-- ===== src/Watchdog/Protocol.antt =====
-- The order of the notifications: READY once, then WATCHDOG any number of times, then STOPPING once.
use packet_inspector_windows.Prelude.{
  ℕ, ◌≡◌, refl, ◌∙◌, Bool, true, false, ◌&&◌, Option, none, some, List, [], ◌∷◌, Text, ◌==◌, arith,
}
use packet_inspector_windows.Watchdog.{
  Message, ready_message, watchdog_message, stopping_message, ServiceWatchdog, create, Called, send,
  ready, progress, stopping,
}

-- One of the calls, whether its datagram goes through, and the reading of the clock.
pub data Call : Type 0 where
  call_ready call_progress : Bool → ℕ → Call
  call_stopping : Bool → Call

abbrev pub perform : ℕ → Call → ServiceWatchdog → Called
perform pid (call_ready delivered clock) w = ready pid delivered clock w
perform pid (call_progress delivered clock) w = progress pid delivered clock w
perform pid (call_stopping delivered) w = stopping pid delivered w

-- Calls in one process, one after the other, whatever they raise.
abbrev pub perform_all : ℕ → List Call → ServiceWatchdog → ServiceWatchdog
perform_all pid [] w = w
perform_all pid (call ∷ calls) w = perform_all pid calls (perform pid call w).0

-- What the service manager knows.
pub data Phase : Type 0 where
  starting running halted : Phase

abbrev pub hear : Message → Option Phase → Option Phase
hear ready_message (some starting) = some running
hear watchdog_message (some running) = some running
hear stopping_message (some running) = some halted
hear _ _ = none

-- The phase behind the messages (newest first); `none` if one came out of turn.
abbrev pub phase_after : List Message → Option Phase
phase_after [] = some starting
phase_after (message ∷ messages) = hear message (phase_after messages)

-- The phase that the flags stand for.
abbrev phase_of : Bool → Bool → Option Phase
phase_of false false = some starting
phase_of true false = some running
phase_of true true = some halted
phase_of false true = none

abbrev Kept : ℕ → ServiceWatchdog → Type 0
Kept pid w =
    ((pid == w.owner_pid) ≡ true)
    × (phase_after w.sent ≡ phase_of w.ready_sent w.stopping_sent)
    × ((w.ready_sent && w.stopping_sent) ≡ w.stopping_sent)

ready-Kept :
    (pid : ℕ) (delivered : Bool) (clock : ℕ) (w : ServiceWatchdog)
    → Kept pid w
    → Kept pid (ready pid delivered clock w).0
unfolding ready send
ready-Kept pid delivered clock w h = ground (arith)

progress-Kept :
    (pid : ℕ) (delivered : Bool) (clock : ℕ) (w : ServiceWatchdog)
    → Kept pid w
    → Kept pid (progress pid delivered clock w).0
unfolding progress send
progress-Kept pid delivered clock w h = ground (arith)

stopping-Kept :
    (pid : ℕ) (delivered : Bool) (w : ServiceWatchdog)
    → Kept pid w
    → Kept pid (stopping pid delivered w).0
unfolding stopping send
stopping-Kept pid delivered w h = ground (arith)

perform_all-Kept :
    (pid : ℕ) (calls : List Call) (w : ServiceWatchdog)
    → Kept pid w
    → Kept pid (perform_all pid calls w)
perform_all-Kept pid [] w h = h
perform_all-Kept pid (call_ready delivered clock ∷ calls) w h =
    perform_all-Kept pid calls (ready pid delivered clock w).0 (ready-Kept pid delivered clock w h)
perform_all-Kept pid (call_progress delivered clock ∷ calls) w h =
    perform_all-Kept pid calls (progress pid delivered clock w).0
      (progress-Kept pid delivered clock w h)
perform_all-Kept pid (call_stopping delivered ∷ calls) w h =
    perform_all-Kept pid calls (stopping pid delivered w).0 (stopping-Kept pid delivered w h)

known_phase : (b c : Bool) → ((b && c) ≡ c) → (phase : Phase) × (phase_of b c ≡ some phase)
known_phase false false h = (starting, refl)
known_phase false true h = absurd (cc h)
known_phase true false h = (running, refl)
known_phase true true h = (halted, refl)

-- Whatever calls the owning process makes of a fresh watchdog, whichever datagrams fail and whatever
-- the clock reads, what reaches the service manager is in turn: first READY, once, then any number
-- of WATCHDOG, then at most one STOPPING and nothing more.
pub perform_all-in_turn :
    (pid : ℕ) (address : Option Text) (interval : ℕ) (calls : List Call)
    → (phase : Phase) × (phase_after (perform_all pid calls (create pid address interval)).sent
        ≡ some phase)
unfolding create
perform_all-in_turn pid address interval calls =
    let (owner, in_turn, ordered) =
      perform_all-Kept pid calls (unfold create in create pid address interval)
        (ground arith, refl, refl) in
    let (phase, known) = known_phase _ _ ordered in (phase, in_turn ∙ known)
