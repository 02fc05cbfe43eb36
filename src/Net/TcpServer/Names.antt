-- ===== src/Net/TcpServer/Names.antt =====
-- The names of a server's connections (LALI/net/TcpServer.cpp).
use lali_rpc_frame.Base.{
  bytes_eq, Bytes, Bool-cases, length, drop, drop-append, ℕ, ◌≤◌, ◌<◌, ◌≡◌, refl, sym, ap, ◌∙◌, inl,
  inr, false, none, List, [], ◌∷◌, arith,
}
use lali_rpc_frame.Base.Dict.{lookup, assign, erase, bytes_lt, bytes_eq→eq, bytes_eq_refl}
use lali_rpc_frame.Base.Decimal.{to_decimal, read_decimal, read-to_decimal}
use lali_rpc_frame.Net.TcpServer.{conn_name}

-- A name with a number that was given before.
pub record IsOld (name : Bytes) (bound : ℕ) (n : Bytes) : Type 0 where
  pub id : ℕ
  pub below : id < bound
  pub named : n ≡ conn_name name id

abbrev pub AllOld : {V : Type 0} → Bytes → ℕ → List (Bytes × V) → Type 0
AllOld name bound [] = Unit
AllOld name bound (entry ∷ m) = IsOld name bound entry.0 × AllOld name bound m

later : (name : Bytes) (b c : ℕ) (n : Bytes) → b ≤ c → IsOld name b n → IsOld name c n
later name b c n h v = record { id = v.id; below = omega (arith, v.below); named = v.named }

conn_name-injective : (name : Bytes) (i j : ℕ) → conn_name name i ≡ conn_name name j → i ≡ j
unfolding conn_name
conn_name-injective name i j h =
    let numbers : to_decimal i ≡ to_decimal j = ap (drop 1) (
      sym (drop-append name (b'#' ∷ to_decimal i))
      ∙ ap (drop (length name)) h
      ∙ drop-append name (b'#' ∷ to_decimal j)) in
    sym (read-to_decimal i) ∙ ap (read_decimal 0) numbers ∙ read-to_decimal j

-- A new name is not among the old ones.
new_other :
    (name : Bytes) (b : ℕ) (j : Bytes) → IsOld name b j → bytes_eq j (conn_name name b) ≡ false
new_other name b j v = elim (Bool-cases (bytes_eq j (conn_name name b))) [
  | inl same ↦
      let e : v.id ≡ b =
        conn_name-injective name v.id b (sym v.named ∙ bytes_eq→eq j (conn_name name b) same) in
      let absurd : ⊥ = omega (arith, v.below) in elim absurd [ ]
  | inr other ↦ other
]

module _ {V : Type 0} where
  pub AllOld-later :
      (name : Bytes) (b c : ℕ) (m : List (Bytes × V)) → b ≤ c → AllOld name b m → AllOld name c m
  AllOld-later name b c [] h v = tt
  AllOld-later name b c (entry ∷ m) h v =
      (later name b c entry.0 h v.0, AllOld-later name b c m h v.1)

  pub AllOld-assign :
      (name : Bytes) (b : ℕ) (k : Bytes) (v : V) (m : List (Bytes × V))
      → IsOld name b k
      → AllOld name b m
      → AllOld name b (assign k v m)
  unfolding assign
  AllOld-assign name b k v [] h a = (h, tt)
  AllOld-assign name b k v ((j, w) ∷ m) h a = elim (Bool-cases (bytes_eq j k)) [
    | inl same ↦ rw same (h, a.1)
    | inr other ↦ rw other (elim (Bool-cases (bytes_lt k j)) [
      | inl before ↦ rw before (h, a)
      | inr behind ↦ rw behind (a.0, AllOld-assign name b k v m h a.1)
    ])
  ]

  pub AllOld-erase :
      (name : Bytes) (b : ℕ) (k : Bytes) (m : List (Bytes × V))
      → AllOld name b m
      → AllOld name b (erase k m)
  unfolding erase
  AllOld-erase name b k [] a = tt
  AllOld-erase name b k ((j, w) ∷ m) a = elim (Bool-cases (bytes_eq j k)) [
    | inl same ↦ rw same a.1
    | inr other ↦ rw other (a.0, AllOld-erase name b k m a.1)
  ]

  pub lookup_new :
      (name : Bytes) (b : ℕ) (m : List (Bytes × V))
      → AllOld name b m
      → lookup (conn_name name b) m ≡ none
  unfolding lookup
  lookup_new name b [] a = refl
  lookup_new name b ((j, w) ∷ m) a = rw (new_other name b j a.0) (lookup_new name b m a.1)

  pub erase-assign_new :
      (name : Bytes) (b : ℕ) (v : V) (m : List (Bytes × V))
      → AllOld name b m
      → erase (conn_name name b) (assign (conn_name name b) v m) ≡ m
  unfolding erase assign
  erase-assign_new name b v [] a = rw (bytes_eq_refl (conn_name name b)) refl
  erase-assign_new name b v ((j, w) ∷ m) a =
      let other = new_other name b j a.0 in
      rw other (elim (Bool-cases (bytes_lt (conn_name name b) j)) [
        | inl before ↦ rw (before, bytes_eq_refl (conn_name name b)) refl
        | inr behind ↦ rw (behind, other) (ap (λ l. (j, w) ∷ l) (erase-assign_new name b v m a.1))
      ])
