-- ===== src/Net/Channel.antt =====
-- LALI/net/Channel.h and Channel.cpp: what a channel asks the poller for, and what it does with an event.
use lali_rpc_frame.Base.{if◌then◌else◌, Bool, true, false, not, ◌&&◌, ◌||◌, List, [], ◌∷◌, ◌++◌}

-- A set of poll(2)'s event bits.
pub record Events : Type 0 where
  pub pollin : Bool
  pub pollpri : Bool
  pub pollout : Bool
  pub pollerr : Bool
  pub pollhup : Bool
  pub pollnval : Bool
  pub pollrdhup : Bool

abbrev pub none_event : Events
none_event = record {
  pollin = false;
  pollpri = false;
  pollout = false;
  pollerr = false;
  pollhup = false;
  pollnval = false;
  pollrdhup = false;
}

-- `events |= ReadEventFlag`, `events |= WriteEventFlag`, `events &= ~WriteEventFlag`.
abbrev pub with_read : Events → Events
with_read e = record e { pollin = true; pollpri = true }

abbrev pub with_write : Events → Events
with_write e = record e { pollout = true }

abbrev pub without_write : Events → Events
without_write e = record e { pollout = false }

abbrev pub is_none_event : Events → Bool
is_none_event e =
    not (e.pollin || e.pollpri || e.pollout || e.pollerr || e.pollhup || e.pollnval || e.pollrdhup)

-- The poller's mark: New, Deleted or Add.
pub data Index : Type 0 where
  new : Index
  deleted : Index
  added : Index

-- Which callbacks are set.
pub data Callback : Type 0 where
  close_callback : Callback
  error_callback : Callback
  read_callback : Callback
  write_callback : Callback

pub record Channel : Type 0 where
  pub events : Events
  pub current_events : Events
  pub index : Index
  pub is_set : Callback → Bool

abbrev pub new_channel : Channel
new_channel = record {
  events = none_event;
  current_events = none_event;
  index = new;
  is_set = λ cb. false;
}

abbrev pub is_writing : Channel → Bool
is_writing c = c.events.pollout

abbrev pub calls_if : Bool → Callback → Channel → List Callback
calls_if test cb c = if test && c.is_set cb then cb ∷ [] else []

-- The callbacks that are called, in order.
unfoldable pub handle_event : Channel → List Callback
handle_event c =
    let e = c.current_events in
    calls_if (e.pollhup && not e.pollin) close_callback c
    ++ (calls_if (e.pollerr || e.pollnval) error_callback c
        ++ (calls_if (e.pollin || e.pollpri || e.pollrdhup) read_callback c
            ++ calls_if e.pollout write_callback c))
