-- ===== src/Net/Poller/Interest.antt =====
-- The calls of epoll_ctl, against what epoll does with them (LALI/net/Poller.cpp).
use lali_rpc_frame.Base.{
  ◌==◌, ==_iff, Bool-cases, ℕ, ◌≡◌, refl, sym, ap, ◌∙◌, subst, inl, inr, Bool, true, false, Option,
  none, some, List, [], ◌∷◌, ◌++◌,
}
use lali_rpc_frame.Net.Channel.{Events, Index, new, deleted, added, Channel}
use lali_rpc_frame.Net.Poller.{Operation, ctl_add, ctl_del, ctl_mod, Call, Poller, put}

-- epoll's interest list: the events that a descriptor is registered for. It refuses an addition of a
-- descriptor that is there, and a change or removal of one that is not.
abbrev pub Kernel : Type 0
Kernel = ℕ → Option Events

unfoldable pub accept_at : Operation → Option Events → ℕ → Events → Kernel → Option Kernel
accept_at ctl_add none fd events k = some (put fd (some events) k)
accept_at ctl_add (some old) fd events k = none
accept_at ctl_mod none fd events k = none
accept_at ctl_mod (some old) fd events k = some (put fd (some events) k)
accept_at ctl_del none fd events k = none
accept_at ctl_del (some old) fd events k = some (put fd none k)

unfoldable pub accept : Call → Option Kernel → Option Kernel
accept call none = none
accept call (some k) = accept_at call.operation (k call.fd) call.fd call.events k

unfoldable pub replay : List Call → Option Kernel → Option Kernel
replay [] k = k
replay (call ∷ calls) k = replay calls (accept call k)

abbrev pub nothing : Kernel
nothing = λ fd. none

-- What a channel should be registered for, and whether the map should hold it.
abbrev pub interest_at : Index → Events → Option Events
interest_at new events = none
interest_at deleted events = none
interest_at added events = some events

abbrev pub interest : Channel → Option Events
interest c = interest_at c.index c.events

abbrev pub is_known : Index → Bool
is_known new = false
is_known deleted = true
is_known added = true

-- epoll has accepted every call, and each channel is registered for its events, or not at all.
pub record IsRegistered (p : Poller) (k : Kernel) : Type 0 where
  pub accepted : replay p.calls (some nothing) ≡ some k
  pub asked : (fd : ℕ) → k fd ≡ interest (p.channels fd)
  pub mapped : (fd : ℕ) → p.channel_map fd ≡ is_known (p.channels fd).index

-- The same where the events of one channel have changed and are not passed on yet.
abbrev pub IsThere : Index → Option Events → Type 0
IsThere added none = ⊥
IsThere added (some events) = Unit
IsThere index events = events ≡ none

pub record IsAlmost (fd : ℕ) (p : Poller) (k : Kernel) : Type 0 where
  pub accepted : replay p.calls (some nothing) ≡ some k
  pub there : IsThere (p.channels fd).index (k fd)
  pub asked : (n : ℕ) → (n == fd) ≡ false → k n ≡ interest (p.channels n)
  pub mapped : (n : ℕ) → p.channel_map n ≡ is_known (p.channels n).index

pub replay-append :
    (calls : List Call) (call : Call) (k : Option Kernel)
    → replay (calls ++ call ∷ []) k ≡ accept call (replay calls k)
unfolding replay
replay-append [] call k = refl
replay-append (c ∷ calls) call k = replay-append calls call (accept c k)

pub put_self : {A : Type 0} → (k : ℕ) (a : A) (f : ℕ → A) → put k a f k ≡ a
put_self k a f = rw ((==_iff k k).1 refl) refl

pub put_other :
    {A : Type 0} → (k : ℕ) (a : A) (f : ℕ → A) (n : ℕ) → (n == k) ≡ false → put k a f n ≡ f n
put_other k a f n h = rw h refl

-- A step that puts one descriptor right.
pub record Settles (fd : ℕ) (p : Poller) (k : Kernel) (q : Poller) : Type 0 where
  pub channels : (n : ℕ) → (n == fd) ≡ false → q.channels n ≡ p.channels n
  pub channel_map : (n : ℕ) → (n == fd) ≡ false → q.channel_map n ≡ p.channel_map n
  pub accepted : replay q.calls (some nothing) ≡ some (put fd (interest (q.channels fd)) k)
  pub mapped : q.channel_map fd ≡ is_known (q.channels fd).index

pub settle-IsRegistered :
    (fd : ℕ) (p : Poller) (k : Kernel) (q : Poller)
    → IsAlmost fd p k
    → Settles fd p k q
    → IsRegistered q (put fd (interest (q.channels fd)) k)
settle-IsRegistered fd p k q a s = record {
  accepted = s.accepted;
  asked = λ n. elim (Bool-cases (n == fd)) [
    | inl same ↦
        let e : n ≡ fd = (==_iff n fd).0 same in
        subst (λ m. put fd (interest (q.channels fd)) k m ≡ interest (q.channels m)) (sym e)
          (put_self fd (interest (q.channels fd)) k)
    | inr other ↦
        put_other fd (interest (q.channels fd)) k n other
        ∙ a.asked n other
        ∙ ap interest (sym (s.channels n other))
  ];
  mapped = λ n. elim (Bool-cases (n == fd)) [
    | inl same ↦
        let e : n ≡ fd = (==_iff n fd).0 same in
        subst (λ m. q.channel_map m ≡ is_known (q.channels m).index) (sym e) s.mapped
    | inr other ↦
        s.channel_map n other ∙ a.mapped n ∙ ap (λ c. is_known c.index) (sym (s.channels n other))
  ];
}
