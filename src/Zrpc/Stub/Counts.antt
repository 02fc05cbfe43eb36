-- ===== src/Zrpc/Stub/Counts.antt =====
-- What a service description that is accepted gives (LALI/zrpc/stub/StubGenerator.cpp).
use lali_rpc_frame.Base.{
  Bytes, codes, length, length-append, ℕ, zero, suc, ◌+◌, ◌≡◌, refl, ap, subst, Option, none, some,
  [], ◌∷◌, arith,
}
use Prim.Native.String.{String}
use lali_rpc_frame.Zrpc.Json.{Json}
use lali_rpc_frame.Zrpc.Stub.Generator.{
  member_or, Checked, good, bad, ◌>>=◌, ServiceInfo, add_rpc, parse_rpc, parse_rpcs, parse_proto,
}

bind-good :
    {A B : Type 0} (m : Checked A) (f : A → Checked B) (b : B)
    → (m >>= f) ≡ good b
    → (a : A) × (m ≡ good a) × (f a ≡ good b)
unfolding ◌>>=◌
bind-good (good a) f b h = (a, refl, h)
bind-good (bad message) f b h = cc

good-injective : {A : Type 0} {a b : A} → good a ≡ good b → a ≡ b
good-injective h = cc

member_or-some :
    (j : Json) (message : String) (m : Option j.Value) (v : j.Value)
    → member_or j message m ≡ good v
    → m ≡ some v
unfolding member_or
member_or-some j message none v h = cc
member_or-some j message (some w) v h = ap (λ x. some x) (good-injective h)

module _ (j : Json) where
  open j use {Value, get_size, find_member}

  -- How many procedures and notifications a service has.
  abbrev pub rpc_count : ServiceInfo Value → ℕ
  rpc_count info = length info.rpc_return + length info.rpc_notify

  add_rpc-count :
      (name : Bytes) (params : Value) (returns : Option Value) (info : ServiceInfo Value)
      → rpc_count (add_rpc j name params returns info) ≡ rpc_count info + 1
  unfolding add_rpc
  add_rpc-count name params (some returns) info = omega (
    arith,
    length-append info.rpc_return (record { name = name; params = params; returns = returns } ∷ []),
  )
  add_rpc-count name params none info =
      omega (arith, length-append info.rpc_notify (record { name = name; params = params } ∷ []))

  parse_rpc-count :
      (rpc : Value) (info r : ServiceInfo Value)
      → parse_rpc j rpc info ≡ good r
      → rpc_count r ≡ rpc_count info + 1
  unfolding parse_rpc
  parse_rpc-count rpc info r h =
      let (u1, e1, h1) = bind-good _ _ _ h in
      let (name, e2, h2) = bind-good _ _ _ h1 in
      let (u3, e3, h3) = bind-good _ _ _ h2 in
      let (u4, e4, h4) = bind-good _ _ _ h3 in
      let (u5, e5, h5) = bind-good _ _ _ h4 in
      subst (λ x. rpc_count x ≡ rpc_count info + 1) (good-injective h5) (add_rpc-count _ _ _ info)

  parse_rpcs-count :
      (left i : ℕ) (rpcs : Value) (info r : ServiceInfo Value)
      → parse_rpcs j left i rpcs info ≡ good r
      → rpc_count r ≡ rpc_count info + left
  unfolding parse_rpcs
  parse_rpcs-count zero i rpcs info r h =
      subst (λ x. rpc_count x ≡ rpc_count info + 0) (good-injective h) (omega arith)
  parse_rpcs-count (suc left) i rpcs info r h =
      let (parsed, e, k) = bind-good _ _ _ h in
      omega (
        arith,
        parse_rpc-count (j.element rpcs i) info parsed e,
        parse_rpcs-count left (suc i) rpcs parsed r k,
      )

  -- An accepted description has an array "rpc", and the service has as many procedures and
  -- notifications, together, as that array has elements.
  pub parse_proto-count :
      (proto : Value) (r : ServiceInfo Value)
      → parse_proto j proto ≡ good r
      → (rpcs : Value) × (find_member proto (codes "rpc") ≡ some rpcs)
        × (rpc_count r ≡ get_size rpcs)
  unfolding parse_proto
  parse_proto-count proto r h =
      let (u1, e1, h1) = bind-good _ _ _ h in
      let (u2, e2, h2) = bind-good _ _ _ h1 in
      let (name, e3, h3) = bind-good _ _ _ h2 in
      let (u4, e4, h4) = bind-good _ _ _ h3 in
      let (rpcs, e5, h5) = bind-good _ _ _ h4 in
      let (u6, e6, h6) = bind-good _ _ _ h5 in
      (
        rpcs,
        member_or-some j "missing service rpc definition" (find_member proto (codes "rpc")) rpcs e5,
        omega (
          arith,
          parse_rpcs-count (get_size rpcs) 0 rpcs
              (record { name = j.get_string name; rpc_return = []; rpc_notify = [] }) r h6,
        ),
      )
