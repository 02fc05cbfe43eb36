-- ===== src/Net/Poller/Steps.antt =====
-- Every operation of the poller keeps epoll's list in step with the channels (LALI/net/Poller.cpp).
use lali_rpc_frame.Base.{
  Bool-cases, ℕ, ◌≡◌, refl, sym, ap, ◌∙◌, subst, inl, inr, true, Option, none, some, List, [], ◌∷◌,
  ◌++◌,
}
use lali_rpc_frame.Net.Channel.{Events, is_none_event, Index, new, deleted, added, Channel}
use lali_rpc_frame.Net.Poller.{ctl_add, ctl_del, ctl_mod, Call, Poller, put, update, update_at}
use lali_rpc_frame.Net.Poller.Interest.{
  Kernel, accept_at, accept, replay, nothing, interest_at, interest, is_known, IsThere, IsAlmost,
  replay-append, put_self, put_other, Settles,
}

-- A call that follows accepted ones.
add_accepted :
    (calls : List Call) (fd : ℕ) (events : Events) (k : Kernel)
    → replay calls (some nothing) ≡ some k
    → k fd ≡ none
    → replay (calls ++ record { operation = ctl_add; fd = fd; events = events } ∷ []) (some nothing)
      ≡ some (put fd (some events) k)
unfolding accept accept_at
add_accepted calls fd events k h free =
    let call : Call = record { operation = ctl_add; fd = fd; events = events } in
    replay-append calls call (some nothing)
    ∙ ap (accept call) h
    ∙ ap (λ o. accept_at ctl_add o fd events k) free

mod_at :
    (old : Option Events) (fd : ℕ) (events : Events) (k : Kernel)
    → IsThere added old
    → accept_at ctl_mod old fd events k ≡ some (put fd (some events) k)
unfolding accept_at
mod_at none fd events k h = elim h [ ]
mod_at (some old) fd events k h = refl

del_at :
    (old : Option Events) (fd : ℕ) (events : Events) (k : Kernel)
    → IsThere added old
    → accept_at ctl_del old fd events k ≡ some (put fd none k)
unfolding accept_at
del_at none fd events k h = elim h [ ]
del_at (some old) fd events k h = refl

mod_accepted :
    (calls : List Call) (fd : ℕ) (events : Events) (k : Kernel)
    → replay calls (some nothing) ≡ some k
    → IsThere added (k fd)
    → replay (calls ++ record { operation = ctl_mod; fd = fd; events = events } ∷ []) (some nothing)
      ≡ some (put fd (some events) k)
unfolding accept
mod_accepted calls fd events k h there =
    let call : Call = record { operation = ctl_mod; fd = fd; events = events } in
    replay-append calls call (some nothing) ∙ ap (accept call) h ∙ mod_at (k fd) fd events k there

pub del_accepted :
    (calls : List Call) (fd : ℕ) (events : Events) (k : Kernel)
    → replay calls (some nothing) ≡ some k
    → IsThere added (k fd)
    → replay (calls ++ record { operation = ctl_del; fd = fd; events = events } ∷ []) (some nothing)
      ≡ some (put fd none k)
unfolding accept
del_accepted calls fd events k h there =
    let call : Call = record { operation = ctl_del; fd = fd; events = events } in
    replay-append calls call (some nothing) ∙ ap (accept call) h ∙ del_at (k fd) fd events k there

abbrev pub marked : ℕ → Index → Poller → Channel
marked fd index p = record (p.channels fd) { index = index }

-- The channel that stands at the descriptor behind a mark.
pub marked-interest :
    (fd : ℕ) (index : Index) (p : Poller)
    → interest (put fd (marked fd index p) p.channels fd)
      ≡ interest_at index (put fd (marked fd index p) p.channels fd).events
marked-interest fd index p =
    ap (λ i. interest_at i (put fd (marked fd index p) p.channels fd).events)
      (ap (λ c. c.index) (put_self fd (marked fd index p) p.channels))

pub marked-known :
    (fd : ℕ) (index : Index) (p : Poller)
    → is_known (put fd (marked fd index p) p.channels fd).index ≡ is_known index
marked-known fd index p = ap (λ c. is_known c.index) (put_self fd (marked fd index p) p.channels)

pub update_at-Settles :
    (index : Index) (fd : ℕ) (p : Poller) (k : Kernel)
    → (p.channels fd).index ≡ index
    → IsAlmost fd p k
    → Settles fd p k (update_at index fd p)
unfolding update_at update
update_at-Settles new fd p k e a = record {
  channels = put_other fd (marked fd added p) p.channels;
  channel_map = put_other fd true p.channel_map;
  accepted =
      add_accepted p.calls fd (put fd (marked fd added p) p.channels fd).events k a.accepted
        (subst (λ i. IsThere i (k fd)) e a.there)
      ∙ ap (λ o. some (put fd o k)) (sym (marked-interest fd added p));
  mapped = put_self fd true p.channel_map ∙ sym (marked-known fd added p);
}
update_at-Settles deleted fd p k e a = record {
  channels = put_other fd (marked fd added p) p.channels;
  channel_map = λ n h. refl;
  accepted =
      add_accepted p.calls fd (put fd (marked fd added p) p.channels fd).events k a.accepted
        (subst (λ i. IsThere i (k fd)) e a.there)
      ∙ ap (λ o. some (put fd o k)) (sym (marked-interest fd added p));
  mapped = a.mapped fd ∙ ap is_known e ∙ sym (marked-known fd added p);
}
update_at-Settles added fd p k e a = elim (Bool-cases (is_none_event (p.channels fd).events)) [
  | inl idle ↦ rw idle (record {
    channels = put_other fd (marked fd deleted p) p.channels;
    channel_map = λ n h. refl;
    accepted =
        del_accepted p.calls fd (p.channels fd).events k a.accepted
          (subst (λ i. IsThere i (k fd)) e a.there)
        ∙ ap (λ o. some (put fd o k)) (sym (marked-interest fd deleted p));
    mapped = a.mapped fd ∙ ap is_known e ∙ sym (marked-known fd deleted p);
  })
  | inr busy ↦ rw busy (record {
    channels = λ n h. refl;
    channel_map = λ n h. refl;
    accepted =
        mod_accepted p.calls fd (p.channels fd).events k a.accepted
          (subst (λ i. IsThere i (k fd)) e a.there)
        ∙ ap (λ i. some (put fd (interest_at i (p.channels fd).events) k)) (sym e);
    mapped = a.mapped fd;
  })
]
