-- ===== src/Zrpc/Thrown.antt =====
-- Exceptions and effects: a run gives the calls that it has made, and a result or what was thrown.
use lali_rpc_frame.Base.{if◌then◌else◌, ◌≡◌, refl, Bool, true, false, List, [], ◌∷◌, ◌++◌}
use Prim.Native.String.{String}

-- `throw Exception("...")` and `throw "..."`: the handlers tell them apart.
pub data Thrown : Type 0 where
  exception : String → Thrown
  text : String → Thrown

pub data Result (A : Type 0) : Type 0 where
  ok : A → Result A
  throws : Thrown → Result A

-- `E` is what a run can do to its surroundings.
pub record Run (E A : Type 0) : Type 0 where
  pub events : List E
  pub result : Result A

module _ {E : Type 0} where
  abbrev pub pure : {A : Type 0} → A → Run E A
  pure a = record { events = []; result = ok a }

  abbrev pub throw : {A : Type 0} → Thrown → Run E A
  throw t = record { events = []; result = throws t }

  abbrev pub emit : E → Run E (Unit {0})
  emit e = record { events = e ∷ []; result = ok tt }

  abbrev pub after : {B : Type 0} → List E → Run E B → Run E B
  after es r = record { events = es ++ r.events; result = r.result }

  abbrev pub bind : {A B : Type 0} → List E → Result A → (A → Run E B) → Run E B
  bind es (ok a) f = after es (f a)
  bind es (throws t) f = record { events = es; result = throws t }

  infixl 5 ◌>>=◌ ◌>>◌
  -- Shut, so that a rule for it fits a `do` block.
  unfoldable pub ◌>>=◌ : {A B : Type 0} → Run E A → (A → Run E B) → Run E B
  m >>= f = bind m.events m.result f

  abbrev pub ◌>>◌ : {B : Type 0} → Run E (Unit {0}) → Run E B → Run E B
  m >> k = m >>= λ _. k

  -- `if (bad) throw t;`
  unfoldable pub refuse : Bool → Thrown → Run E (Unit {0})
  refuse true t = throw t
  refuse false t = pure tt

abbrev pub All {ℓ κ} : {A : Type ℓ} → (A → Type κ) → List A → Type κ
All P [] = Unit
All P (x ∷ xs) = P x × All P xs

pub All-append {ℓ κ} :
    {A : Type ℓ} (P : A → Type κ) (xs ys : List A) → All P xs → All P ys → All P (xs ++ ys)
All-append P [] ys h k = k
All-append P (x ∷ xs) ys h k = (h.0, All-append P xs ys h.1 k)

-- Every event of a run is one that `P` allows.
pub record Emits {E A : Type 0} (P : E → Type 0) (m : Run E A) : Type 0 where
  pub allowed : All P m.events

module _ {E : Type 0} {P : E → Type 0} where
  -- The events of a chain are those of its parts, the later ones where the earlier part succeeds.
  pub Emits-bind :
      {A B : Type 0} {m : Run E A} {f : A → Run E B}
      → Emits P m
      → ((a : A) → m.result ≡ ok a → Emits P (f a))
      → Emits P (m >>= f)
  unfolding ◌>>=◌
  Emits-bind {A} {B} {m} {f} h k = record { allowed = go m.result refl }
    where
      go : (r : Result A) → m.result ≡ r → All P (bind m.events r f).events
      go (ok a) e = All-append P m.events (f a).events h.allowed (k a e).allowed
      go (throws t) e = h.allowed

  pub Emits-pure : {A : Type 0} {a : A} → Emits P (pure a)
  Emits-pure = record { allowed = tt }

  pub Emits-throw : {A : Type 0} {t : Thrown} → Emits P (throw {A = A} t)
  Emits-throw = record { allowed = tt }

  -- An early return emits nothing, and what follows it knows its test.
  pub Emits-refuse : (bad : Bool) (t : Thrown) → Emits P (refuse bad t)
  unfolding refuse
  Emits-refuse bad t = record { allowed = go bad }
    where
      go : (b : Bool) → All P (refuse b t).events
      go true = tt
      go false = tt

  pub Emits-if :
      {A : Type 0} {b : Bool} {x y : Run E A}
      → (b ≡ true → Emits P x)
      → (b ≡ false → Emits P y)
      → Emits P (if b then x else y)
  Emits-if {b = true} h k = h refl
  Emits-if {b = false} h k = k refl

pub refuse-ok :
    (E : Type 0) (bad : Bool) (t : Thrown) {u : Unit {0}}
    → (refuse {E = E} bad t).result ≡ ok u
    → bad ≡ false
unfolding refuse
refuse-ok E true t h = cc
refuse-ok E false t h = refl

-- A chain that succeeds has a first part that succeeds, and so has what follows it.
pub bind-ok :
    {E A B : Type 0} (m : Run E A) (f : A → Run E B) (b : B)
    → (m >>= f).result ≡ ok b
    → (a : A) × (m.result ≡ ok a) × ((f a).result ≡ ok b)
unfolding ◌>>=◌
bind-ok {E} {A} {B} m f b h = go m.result refl h
  where
    go :
        (r : Result A)
        → m.result ≡ r
        → (bind m.events r f).result ≡ ok b
        → (a : A) × (m.result ≡ ok a) × ((f a).result ≡ ok b)
    go (ok a) e k = (a, e, k)
    go (throws t) e k = cc
