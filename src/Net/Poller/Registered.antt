-- ===== src/Net/Poller/Registered.antt =====
-- What epoll watches after any operations of the channels (LALI/net/Poller.cpp, LALI/net/Channel.h).
use lali_rpc_frame.Base.{
  ◌==◌, if◌then◌else◌, ==_iff, Bool-cases, length, ℕ, ◌*◌, ◌≡◌, refl, sym, ap, ◌∙◌, subst, inl, inr,
  Bool, true, false, not, ◌&&◌, Option, none, some, List, [], ◌∷◌,
}
use mathlib.Core.Path.{fun_ext}
use lali_rpc_frame.Net.Channel.{
  Events, with_read, with_write, without_write, Index, new, deleted, added,
}
use lali_rpc_frame.Net.Poller.{
  Poller, put, new_poller, update, set_events, update_at, update_channel, remove_at, remove_channel,
  enable_reading, enable_writing, disable_writing, disable_all, fill_active_channels, poll, Op,
  enables_reading, enables_writing, disables_writing, disables_all, removes, polls, apply, run,
}
use lali_rpc_frame.Net.Poller.Interest.{
  Kernel, replay, nothing, interest_at, interest, is_known, IsRegistered, IsThere, IsAlmost,
  put_self, put_other, Settles, settle-IsRegistered,
}
use lali_rpc_frame.Net.Poller.Steps.{
  update_at-Settles, del_accepted, marked, marked-interest, marked-known,
}

-- epoll has accepted every call of epoll_ctl. Each channel with the mark Add is registered for exactly
-- its events, the others are not registered, and the map holds exactly the channels that are not new.
pub record IsConsistent (p : Poller) : Type 0 where
  pub kernel : Kernel
  pub registered : IsRegistered p kernel

interest-IsThere :
    (index : Index) (old : Option Events) (events : Events)
    → old ≡ interest_at index events
    → IsThere index old
interest-IsThere new old events h = h
interest-IsThere deleted old events h = h
interest-IsThere added old events h = subst (λ o. IsThere added o) (sym h) tt

-- A changed channel with the mark that it had.
known_same :
    (fd : ℕ) (events : Events) (p : Poller) (n : ℕ)
    → is_known ((set_events fd events p).channels n).index ≡ is_known (p.channels n).index
known_same fd events p n = elim (Bool-cases (n == fd)) [
  | inl same ↦ rw same (ap (λ m. is_known (p.channels m).index) (sym ((==_iff n fd).0 same)))
  | inr other ↦ rw other refl
]

set_events-IsAlmost :
    (fd : ℕ) (events : Events) (p : Poller) (k : Kernel)
    → IsRegistered p k
    → IsAlmost fd (set_events fd events p) k
set_events-IsAlmost fd events p k v = record {
  accepted = v.accepted;
  there =
      subst (λ c. IsThere c.index (k fd))
        (sym (put_self fd (record (p.channels fd) { events = events }) p.channels))
        (interest-IsThere (p.channels fd).index (k fd) (p.channels fd).events (v.asked fd));
  asked = λ n h.
      v.asked n
      ∙ ap interest
          (sym (put_other fd (record (p.channels fd) { events = events }) p.channels n h));
  mapped = λ n. v.mapped n ∙ sym (known_same fd events p n);
}

update_channel-IsConsistent :
    (fd : ℕ) (p : Poller) (k : Kernel) → IsAlmost fd p k → IsConsistent (update_channel fd p)
unfolding update_channel
update_channel-IsConsistent fd p k a = record {
  kernel = put fd (interest ((update_at (p.channels fd).index fd p).channels fd)) k;
  registered =
      settle-IsRegistered fd p k (update_at (p.channels fd).index fd p) a
        (update_at-Settles (p.channels fd).index fd p k refl a);
}

-- A channel with unchanged events.
unchanged-IsAlmost : (fd : ℕ) (p : Poller) (k : Kernel) → IsRegistered p k → IsAlmost fd p k
unchanged-IsAlmost fd p k v = record {
  accepted = v.accepted;
  there = interest-IsThere (p.channels fd).index (k fd) (p.channels fd).events (v.asked fd);
  asked = λ n h. v.asked n;
  mapped = v.mapped;
}

put_same : (fd : ℕ) (k : Kernel) → k fd ≡ none → put fd none k ≡ k
put_same fd k h = fun_ext (λ n. elim (Bool-cases (n == fd)) [
  | inl same ↦ rw same (sym (ap k ((==_iff n fd).0 same) ∙ h))
  | inr other ↦ rw other refl
])

abbrev unmapped : ℕ → Poller → Poller
unmapped fd p = record p { channel_map = put fd false p.channel_map }

remove_at-Settles :
    (index : Index) (fd : ℕ) (p : Poller) (k : Kernel)
    → (p.channels fd).index ≡ index
    → IsAlmost fd p k
    → Settles fd p k (remove_at index fd (unmapped fd p))
unfolding remove_at update
remove_at-Settles new fd p k e a = record {
  channels = put_other fd (marked fd new p) p.channels;
  channel_map = put_other fd false p.channel_map;
  accepted =
      a.accepted
      ∙ ap some (sym (put_same fd k (subst (λ i. IsThere i (k fd)) e a.there)))
      ∙ ap (λ o. some (put fd o k)) (sym (marked-interest fd new p));
  mapped = put_self fd false p.channel_map ∙ sym (marked-known fd new p);
}
remove_at-Settles deleted fd p k e a = record {
  channels = put_other fd (marked fd new p) p.channels;
  channel_map = put_other fd false p.channel_map;
  accepted =
      a.accepted
      ∙ ap some (sym (put_same fd k (subst (λ i. IsThere i (k fd)) e a.there)))
      ∙ ap (λ o. some (put fd o k)) (sym (marked-interest fd new p));
  mapped = put_self fd false p.channel_map ∙ sym (marked-known fd new p);
}
remove_at-Settles added fd p k e a = record {
  channels = put_other fd (marked fd new p) p.channels;
  channel_map = put_other fd false p.channel_map;
  accepted =
      del_accepted p.calls fd (p.channels fd).events k a.accepted
        (subst (λ i. IsThere i (k fd)) e a.there)
      ∙ ap (λ o. some (put fd o k)) (sym (marked-interest fd new p));
  mapped = put_self fd false p.channel_map ∙ sym (marked-known fd new p);
}

remove_channel-IsConsistent :
    (fd : ℕ) (p : Poller) (k : Kernel) → IsAlmost fd p k → IsConsistent (remove_channel fd p)
unfolding remove_channel
remove_channel-IsConsistent fd p k a =
    let q = remove_at (p.channels fd).index fd (unmapped fd p) in
    record {
      kernel = put fd (interest (q.channels fd)) k;
      registered =
          settle-IsRegistered fd p k q a (remove_at-Settles (p.channels fd).index fd p k refl a);
    }

-- The events that a poll reports change neither.
abbrev reported : ℕ → Events → Poller → Poller
reported fd events p = record p {
  channels = put fd (record (p.channels fd) { current_events = events }) p.channels;
}

reported_same :
    (fd : ℕ) (events : Events) (p : Poller) (n : ℕ)
    → (interest ((reported fd events p).channels n) ≡ interest (p.channels n))
      × (is_known ((reported fd events p).channels n).index ≡ is_known (p.channels n).index)
reported_same fd events p n = elim (Bool-cases (n == fd)) [
  | inl same ↦
      let e = sym ((==_iff n fd).0 same) in
      rw same (ap (λ m. interest (p.channels m)) e, ap (λ m. is_known (p.channels m).index) e)
  | inr other ↦ rw other (refl, refl)
]

fill_active_channels-IsRegistered :
    (events : List (ℕ × Events)) (p : Poller) (k : Kernel)
    → IsRegistered p k
    → IsRegistered (fill_active_channels events p).0 k
unfolding fill_active_channels
fill_active_channels-IsRegistered [] p k v = v
fill_active_channels-IsRegistered (event ∷ events) p k v =
    let same = reported_same event.0 event.1 p in
    fill_active_channels-IsRegistered events (reported event.0 event.1 p) k (record {
      accepted = v.accepted;
      asked = λ n. v.asked n ∙ sym (same n).0;
      mapped = λ n. v.mapped n ∙ sym (same n).1;
    })

resized-IsRegistered :
    (b : Bool) (p : Poller) (k : Kernel)
    → IsRegistered p k
    → IsRegistered (if b then record p { events_size = p.events_size * 2 } else p) k
resized-IsRegistered true p k v = record {
  accepted = v.accepted;
  asked = v.asked;
  mapped = v.mapped;
}
resized-IsRegistered false p k v = v

apply-IsConsistent : (op : Op) (p : Poller) → IsConsistent p → IsConsistent (apply op p)
unfolding apply enable_reading enable_writing disable_writing disable_all poll
apply-IsConsistent (enables_reading fd) p v =
    let e = with_read (p.channels fd).events in
    update_channel-IsConsistent fd (set_events fd e p) v.kernel
      (set_events-IsAlmost fd e p v.kernel v.registered)
apply-IsConsistent (enables_writing fd) p v =
    let e = with_write (p.channels fd).events in
    update_channel-IsConsistent fd (set_events fd e p) v.kernel
      (set_events-IsAlmost fd e p v.kernel v.registered)
apply-IsConsistent (disables_writing fd) p v =
    let e = without_write (p.channels fd).events in
    update_channel-IsConsistent fd (set_events fd e p) v.kernel
      (set_events-IsAlmost fd e p v.kernel v.registered)
apply-IsConsistent (disables_all fd) p v =
    update_channel-IsConsistent fd p v.kernel (unchanged-IsAlmost fd p v.kernel v.registered)
apply-IsConsistent (removes fd) p v =
    remove_channel-IsConsistent fd p v.kernel (unchanged-IsAlmost fd p v.kernel v.registered)
apply-IsConsistent (polls events) p v =
    let filled = fill_active_channels events p in
    record {
      kernel = v.kernel;
      registered =
          resized-IsRegistered (length events == (filled.0).events_size && not (length events == 0))
            filled.0 v.kernel (fill_active_channels-IsRegistered events p v.kernel v.registered);
    }

run-keeps : (ops : List Op) (p : Poller) → IsConsistent p → IsConsistent (run ops p)
unfolding run
run-keeps [] p v = v
run-keeps (op ∷ ops) p v = run-keeps ops (apply op p) (apply-IsConsistent op p v)

-- Whatever channels do with their interest, are removed and are polled, in any order from a new poller
-- on: epoll accepts every call of epoll_ctl; it watches each channel that is marked as added for
-- exactly the events of the channel, and no other channel; the map holds exactly the channels that are
-- not new.
pub run-new_poller : (ops : List Op) → IsConsistent (run ops new_poller)
unfolding new_poller replay
run-new_poller ops = run-keeps ops new_poller (record {
  kernel = nothing;
  registered = record { accepted = refl; asked = λ fd. refl; mapped = λ fd. refl };
})
