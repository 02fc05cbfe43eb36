-- ===== src/Net/Http/RequestLine.antt =====
-- A printed request line, and how `partOnRequestLine` of LALI/net/HttpContext.cpp reads it.
use lali_rpc_frame.Base.{
  drop-append_suc, has_byte, has_byte-append, find_byte, find_byte-append, find_byte_absent,
  bytes_eq, Bytes, codes, ◌==◌, ==_iff, length, length-append, take, drop, take-append, drop-append,
  slice, drop-append_ge, take-append_ge, ℕ, suc, ◌+◌, ◌<◌, ◌≡◌, refl, ap, ◌∙◌, subst, true, false,
  Option, none, some, [], ◌∷◌, ◌++◌, append_assoc, append-nil, arith,
}
use lali_rpc_frame.Net.Http.Request.{
  HttpRequest, Method, Version, get, post, head, put, delete, invalid, http_10, http_11, unknown,
  is_valid_method, method_of, method_text, set_method,
}
use lali_rpc_frame.Net.Http.Context.{part_on_request_line, set_version, set_target}

abbrev pub version_text : Version → Bytes
version_text http_10 = codes "HTTP/1.0"
version_text http_11 = codes "HTTP/1.1"
version_text unknown = []

-- The versions that the parser knows.
abbrev pub IsKnownVersion : Version → Type 0
IsKnownVersion unknown = ⊥
IsKnownVersion _ = Unit {0}

abbrev pub IsKnownMethod : Method → Type 0
IsKnownMethod invalid = ⊥
IsKnownMethod _ = Unit {0}

method_of-text : (m : Method) → IsKnownMethod m → method_of (method_text m) ≡ m
unfolding method_of method_text bytes_eq
method_of-text get h = refl
method_of-text post h = refl
method_of-text head h = refl
method_of-text put h = refl
method_of-text delete h = refl
method_of-text invalid h = absurd h

method_text-plain :
    (m : Method)
    → (has_byte 32 (method_text m) ≡ false)
      × (has_byte b'?' (method_text m) ≡ false)
      × (has_byte 13 (method_text m) ≡ false)
unfolding method_text has_byte
method_text-plain get = (refl, refl, refl)
method_text-plain _ = (refl, refl, refl)

set_version-text :
    (v : Version) (r : HttpRequest)
    → IsKnownVersion v
    → set_version (version_text v) r ≡ (true, record r { version = v })
unfolding set_version bytes_eq
set_version-text http_10 r h = refl
set_version-text http_11 r h = refl
set_version-text unknown r h = absurd h

-- A request target: a path, and a query if there is one.
abbrev pub query_text : Option Bytes → Bytes
query_text none = []
query_text (some q) = b'?' ∷ q

abbrev pub set_query : Option Bytes → HttpRequest → HttpRequest
set_query none r = r
set_query (some q) r = record r { query = b'?' ∷ q }

pub record IsTarget (path : Bytes) (query : Option Bytes) : Type 0 where
  pub no_mark : has_byte b'?' path ≡ false
  pub no_space : has_byte 32 (path ++ query_text query) ≡ false
  pub no_cr : has_byte 13 (path ++ query_text query) ≡ false

-- `set_target` from where it finds the question mark and from the parts that it cuts out.
set_target-plain :
    (line : Bytes) (begin space : ℕ) (r : HttpRequest) {path : Bytes}
    → find_byte b'?' (take space line) ≡ space
    → slice begin space line ≡ path
    → set_target line begin space r ≡ record r { path = path }
unfolding set_target
set_target-plain line begin space r e p = rw e (rw ((==_iff space space).1 refl) (rw p))

set_target-query :
    (line : Bytes) (begin space question : ℕ) (r : HttpRequest) {path query : Bytes}
    → find_byte b'?' (take space line) ≡ question
    → question < space
    → slice begin question line ≡ path
    → slice question space line ≡ query
    → set_target line begin space r ≡ record r { path = path; query = query }
unfolding set_target
set_target-query line begin space question r e h p q = rw e (rw differ (rw p (rw q)))
  where
    differ : (question == space) ≡ false
    differ = ground arith

take-target :
    (front target after : Bytes)
    → take (length front + length target) (front ++ (target ++ after)) ≡ front ++ target
take-target front target after =
    take-append_ge (length target) front (target ++ after)
    ∙ ap (λ l. front ++ l) (take-append target after)

slice-target :
    (front target after : Bytes)
    → slice (length front) (length front + length target) (front ++ (target ++ after)) ≡ target
slice-target front target after =
    rw (drop-append front (target ++ after))
      (ap (λ k. take k (target ++ after)) (omega arith) ∙ take-append target after)

slice_behind :
    (front first target after : Bytes)
    → slice
        (length front + length first)
        (length front + (length first + length target))
        (front ++ (first ++ (target ++ after)))
      ≡ target
slice_behind front first target after =
    rw (drop-append_ge (length first) front (first ++ (target ++ after))) (
      rw (drop-append first (target ++ after))
        (ap (λ k. take k (target ++ after)) (omega arith) ∙ take-append target after))

find-front :
    (c : ℕ) (front path : Bytes)
    → has_byte c front ≡ false
    → has_byte c path ≡ false
    → has_byte c (front ++ path) ≡ false
find-front c front path h k = rw (has_byte-append c front path) (rw h k)

set_target-path :
    (front path after : Bytes) (r : HttpRequest)
    → has_byte b'?' front ≡ false
    → has_byte b'?' path ≡ false
    → set_target (front ++ (path ++ after)) (length front) (length front + length path) r
      ≡ record r { path = path }
set_target-path front path after r h k =
    set_target-plain (front ++ (path ++ after)) (length front) (length front + length path) r
      (rw (take-target front path after) (
        find_byte_absent b'?' (front ++ path) (find-front b'?' front path h k)
        ∙ length-append front path))
      (slice-target front path after)

set_target-both :
    (front path q after : Bytes) (r : HttpRequest)
    → has_byte b'?' front ≡ false
    → has_byte b'?' path ≡ false
    → set_target
        (front ++ ((path ++ b'?' ∷ q) ++ after))
        (length front)
        (length front + length (path ++ b'?' ∷ q))
        r
      ≡ record r { path = path; query = b'?' ∷ q }
set_target-both front path q after r h k =
    set_target-query line (length front) space question r mark
      (omega (arith, length-append path (b'?' ∷ q)))
      (rw (append_assoc path (b'?' ∷ q) after) (slice-target front path ((b'?' ∷ q) ++ after)))
      (rw (append_assoc path (b'?' ∷ q) after)
        (rw (length-append path (b'?' ∷ q)) (slice_behind front path (b'?' ∷ q) after)))
  where
    line : Bytes
    line = front ++ ((path ++ b'?' ∷ q) ++ after)

    space : ℕ
    space = length front + length (path ++ b'?' ∷ q)

    question : ℕ
    question = length front + length path

    mark : find_byte b'?' (take space line) ≡ question
    mark = rw (take-target front (path ++ b'?' ∷ q) after) (
        rw (← append_assoc front path (b'?' ∷ q)) (
          find_byte-append b'?' (front ++ path) q (find-front b'?' front path h k)
          ∙ length-append front path))

set_target-text :
    (front path : Bytes) (query : Option Bytes) (after : Bytes) (r : HttpRequest)
    → has_byte b'?' front ≡ false
    → IsTarget path query
    → set_target
        (front ++ ((path ++ query_text query) ++ after))
        (length front)
        (length front + length (path ++ query_text query))
        r
      ≡ record (set_query query r) { path = path }
set_target-text front path none after r h t =
    rw (append-nil path) (set_target-path front path after r h t.no_mark)
set_target-text front path (some q) after r h t = set_target-both front path q after r h t.no_mark

set_target-front :
    (method path : Bytes) (query : Option Bytes) (after : Bytes) (r : HttpRequest)
    → has_byte b'?' method ≡ false
    → IsTarget path query
    → set_target
        (method ++ 32 ∷ ((path ++ query_text query) ++ after))
        (suc (length method))
        (suc (length method) + length (path ++ query_text query))
        r
      ≡ record (set_query query r) { path = path }
set_target-front method path query after r h t =
    let target = path ++ query_text query in
    let front = method ++ 32 ∷ [] in
    let size : length front ≡ suc (length method) = omega (arith, length-append method (32 ∷ [])) in
    let marked = find-front b'?' method (32 ∷ []) h (unfold has_byte in refl) in
    subst
      (λ n.
        set_target (method ++ 32 ∷ (target ++ after)) n (n + length target) r
        ≡ record (set_query query r) { path = path })
      size
      (subst
        (λ l.
          set_target l (length front) (length front + length target) r
          ≡ record (set_query query r) { path = path })
        (append_assoc method (32 ∷ []) (target ++ after))
        (set_target-text front path query after r marked t))

-- A request line without its line end.
abbrev pub request_line_text : Method → Bytes → Option Bytes → Version → Bytes
request_line_text m path query v =
    method_text m ++ 32 ∷ ((path ++ query_text query) ++ 32 ∷ version_text v)

part_on-cut :
    (line : Bytes) (space second : ℕ) (r : HttpRequest) {method version : Bytes}
    → find_byte 32 line ≡ space
    → suc space + find_byte 32 (drop (suc space) line) ≡ second
    → (space == length line) ≡ false
    → (second == length line) ≡ false
    → take space line ≡ method
    → drop (suc second) line ≡ version
    → is_valid_method (method_of method) ≡ true
    → part_on_request_line line r
      ≡ set_version version
          (set_target line (suc space) second (record r { method = method_of method }))
unfolding part_on_request_line set_method
part_on-cut line space second r e₁ e₂ n₁ n₂ m v known =
    rw e₁ (rw e₂ (rw m (rw v (rw n₁ (rw known (rw n₂))))))

ne_of_lt : (a b : ℕ) → a < b → (a == b) ≡ false
ne_of_lt a b h = ground arith

part_on-parts :
    (method target version : Bytes) (r : HttpRequest)
    → has_byte 32 method ≡ false
    → has_byte 32 target ≡ false
    → is_valid_method (method_of method) ≡ true
    → let line = method ++ 32 ∷ (target ++ 32 ∷ version) in
      part_on_request_line line r
      ≡ set_version version (
          set_target line
            (suc (length method))
            (suc (length method) + length target)
            (record r { method = method_of method }))
part_on-parts method target version r h k known =
    part_on-cut line (length method) second r
      (find_byte-append 32 method (target ++ 32 ∷ version) h)
      (rw (drop-append_suc method (target ++ 32 ∷ version) 32)
        (ap (λ n. suc (length method) + n) (find_byte-append 32 target version k)))
      (ne_of_lt (length method) (length line) (omega (arith, size)))
      (ne_of_lt second (length line) (omega (arith, size)))
      (take-append method (32 ∷ (target ++ 32 ∷ version))) behind known
  where
    line : Bytes
    line = method ++ 32 ∷ (target ++ 32 ∷ version)

    second : ℕ
    second = suc (length method) + length target

    size : length line ≡ length method + suc (length target + suc (length version))
    size = omega (
      arith,
      length-append method (32 ∷ (target ++ 32 ∷ version)),
      length-append target (32 ∷ version),
    )

    front_size : length (method ++ 32 ∷ target) ≡ second
    front_size = omega (arith, length-append method (32 ∷ target))

    behind : drop (suc second) line ≡ version
    behind = rw (← front_size) (
        rw (← append_assoc method (32 ∷ target) (32 ∷ version))
          (drop-append_suc (method ++ 32 ∷ target) version 32))

method_text-valid :
    (m : Method) → IsKnownMethod m → is_valid_method (method_of (method_text m)) ≡ true
unfolding is_valid_method
method_text-valid get h = rw (method_of-text get tt)
method_text-valid post h = rw (method_of-text post tt)
method_text-valid head h = rw (method_of-text head tt)
method_text-valid put h = rw (method_of-text put tt)
method_text-valid delete h = rw (method_of-text delete tt)
method_text-valid invalid h = absurd h

-- Reading the printed request line of a known method, a well-formed target and a known version gives
-- that method, path, query and version.
pub part_on-text :
    (m : Method) (path : Bytes) (query : Option Bytes) (v : Version) (r : HttpRequest)
    → IsKnownMethod m
    → IsTarget path query
    → IsKnownVersion v
    → part_on_request_line (request_line_text m path query v) r
      ≡ (true, record (set_query query (record r { method = m })) { path = path; version = v })
part_on-text m path query v r hm t hv =
    let plain = method_text-plain m in
    let target = path ++ query_text query in
    part_on-parts (method_text m) target (version_text v) r plain.0 t.no_space
      (method_text-valid m hm)
    ∙ rw (method_of-text m hm) (
        ap (set_version (version_text v)) (
          set_target-front (method_text m) path query (32 ∷ version_text v)
            (record r { method = m }) plain.1 t)
        ∙ set_version-text v (record (set_query query (record r { method = m })) { path = path })
            hv)

has_byte-version : (v : Version) → has_byte 13 (version_text v) ≡ false
unfolding has_byte
has_byte-version http_10 = refl
has_byte-version _ = refl

pub request_line_text-no_cr :
    (m : Method) (path : Bytes) (query : Option Bytes) (v : Version)
    → IsTarget path query
    → has_byte 13 (request_line_text m path query v) ≡ false
request_line_text-no_cr m path query v t =
    let target = path ++ query_text query in
    let version =
      find-front 13 (32 ∷ []) (version_text v) (unfold has_byte in refl) (has_byte-version v) in
    let tail = find-front 13 target (32 ∷ version_text v) t.no_cr version in
    find-front 13 (method_text m) (32 ∷ (target ++ 32 ∷ version_text v)) (method_text-plain m).2
      (find-front 13 (32 ∷ []) (target ++ 32 ∷ version_text v) (unfold has_byte in refl) tail)
