-- ===== src/Net/Poller.antt =====
-- LALI/net/Poller.cpp: the registration of channels with epoll, and the active channels. A channel is
-- known by its descriptor; the calls of epoll_ctl are recorded in order, and the result of epoll_wait is
-- an argument. The logging is left out.
pub mod Interest
pub mod Steps
pub mod Registered
mod Tests
use lali_rpc_frame.Base.{
  [], ◌==◌, if◌then◌else◌, length, ℕ, ◌*◌, Bool, true, false, not, ◌&&◌, List, ◌∷◌, ◌++◌,
}
use lali_rpc_frame.Net.Channel.{
  Events, with_read, with_write, without_write, is_none_event, Index, new, deleted, added, Channel,
  new_channel,
}

pub data Operation : Type 0 where
  ctl_add : Operation
  ctl_del : Operation
  ctl_mod : Operation

pub record Call : Type 0 where
  pub operation : Operation
  pub fd : ℕ
  pub events : Events

-- `events_size` is the length of the vector that epoll_wait fills.
pub record Poller : Type 0 where
  pub channels : ℕ → Channel
  pub channel_map : ℕ → Bool
  pub calls : List Call
  pub events_size : ℕ

abbrev pub put : {A : Type 0} → ℕ → A → (ℕ → A) → ℕ → A
put k a f n = if n == k then a else f n

unfoldable pub new_poller : Poller
new_poller = record {
  channels = λ fd. new_channel;
  channel_map = λ fd. false;
  calls = [];
  events_size = 16;
}

unfoldable pub update : Operation → ℕ → Poller → Poller
update operation fd p = record p {
  calls =
      p.calls ++ record { operation = operation; fd = fd; events = (p.channels fd).events } ∷ [];
}

abbrev pub set_index : ℕ → Index → Poller → Poller
set_index fd index p = record p {
  channels = put fd (record (p.channels fd) { index = index }) p.channels;
}

abbrev pub set_events : ℕ → Events → Poller → Poller
set_events fd events p = record p {
  channels = put fd (record (p.channels fd) { events = events }) p.channels;
}

unfoldable pub update_at : Index → ℕ → Poller → Poller
update_at new fd p =
    update ctl_add fd (set_index fd added (record p { channel_map = put fd true p.channel_map }))
update_at deleted fd p = update ctl_add fd (set_index fd added p)
update_at added fd p =
    if is_none_event (p.channels fd).events
    then set_index fd deleted (update ctl_del fd p)
    else update ctl_mod fd p

unfoldable pub update_channel : ℕ → Poller → Poller
update_channel fd p = update_at (p.channels fd).index fd p

unfoldable pub remove_at : Index → ℕ → Poller → Poller
remove_at new fd p = set_index fd new p
remove_at deleted fd p = set_index fd new p
remove_at added fd p = set_index fd new (update ctl_del fd p)

unfoldable pub remove_channel : ℕ → Poller → Poller
remove_channel fd p =
    remove_at (p.channels fd).index fd (record p { channel_map = put fd false p.channel_map })

-- What a channel does with its interest; `disableAll` computes a value and drops it.
unfoldable pub enable_reading : ℕ → Poller → Poller
enable_reading fd p = update_channel fd (set_events fd (with_read (p.channels fd).events) p)

unfoldable pub enable_writing : ℕ → Poller → Poller
enable_writing fd p = update_channel fd (set_events fd (with_write (p.channels fd).events) p)

unfoldable pub disable_writing : ℕ → Poller → Poller
disable_writing fd p = update_channel fd (set_events fd (without_write (p.channels fd).events) p)

unfoldable pub disable_all : ℕ → Poller → Poller
disable_all fd p = update_channel fd p

-- The events that epoll_wait returned, by descriptor.
unfoldable pub fill_active_channels : List (ℕ × Events) → Poller → Poller × List ℕ
fill_active_channels [] p = (p, [])
fill_active_channels (event ∷ events) p =
    let first = record p {
      channels = put event.0 (record (p.channels event.0) { current_events = event.1 }) p.channels;
    } in
    let rest = fill_active_channels events first in (rest.0, event.0 ∷ rest.1)

-- An error of epoll_wait is no event here.
unfoldable pub poll : List (ℕ × Events) → Poller → Poller × List ℕ
poll events p =
    let filled = fill_active_channels events p in
    (
      (if length events == (filled.0).events_size && not (length events == 0)
          then record filled.0 { events_size = (filled.0).events_size * 2 }
          else filled.0),
      filled.1,
    )

pub data Op : Type 0 where
  enables_reading : ℕ → Op
  enables_writing : ℕ → Op
  disables_writing : ℕ → Op
  disables_all : ℕ → Op
  removes : ℕ → Op
  polls : List (ℕ × Events) → Op

unfoldable pub apply : Op → Poller → Poller
apply (enables_reading fd) p = enable_reading fd p
apply (enables_writing fd) p = enable_writing fd p
apply (disables_writing fd) p = disable_writing fd p
apply (disables_all fd) p = disable_all fd p
apply (removes fd) p = remove_channel fd p
apply (polls events) p = (poll events p).0

unfoldable pub run : List Op → Poller → Poller
run [] p = p
run (op ∷ ops) p = run ops (apply op p)
