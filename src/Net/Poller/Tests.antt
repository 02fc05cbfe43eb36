-- ===== src/Net/Poller/Tests.antt =====
-- The poller theorem at a concrete run.
use lali_rpc_frame.Base.{◌≡◌, refl, List, [], ◌∷◌, map}
use lali_rpc_frame.Net.Channel.{none_event, with_read}
use lali_rpc_frame.Net.Poller.{
  ctl_add, ctl_del, new_poller, Op, enables_reading, enables_writing, disables_writing, removes,
  polls, run, apply, enable_reading, enable_writing, disable_writing, remove_channel,
  update_channel, update_at, remove_at, update, poll, fill_active_channels,
}
use lali_rpc_frame.Net.Poller.Registered.{IsConsistent, run-new_poller}

-- Two channels; the one that only writes is deleted when it stops, and added again.
abbrev ops : List Op
ops =
    enables_reading 7
    ∷ enables_writing 8
    ∷ polls ((7, with_read none_event) ∷ [])
    ∷ disables_writing 8
    ∷ enables_writing 8
    ∷ removes 7
    ∷ []

run-new_poller_example : IsConsistent (run ops new_poller)
run-new_poller_example = run-new_poller ops

operations :
    map (λ c. c.operation) (run ops new_poller).calls
    ≡ ctl_add ∷ ctl_add ∷ ctl_del ∷ ctl_add ∷ ctl_del ∷ []
unfolding run new_poller apply enable_reading enable_writing disable_writing remove_channel
    update_channel update_at remove_at update poll fill_active_channels
operations = refl
