-- ===== src/Net/Http/Answer.antt =====
-- The text of a response of LALI/net/HttpRespond.cpp, and what HttpServer.cpp sends.
use lali_rpc_frame.Base.{
  Bytes, codes, ltb, if◌then◌else◌, Bool-cases, length, length-append, take-length, ℕ, zero, suc,
  ◌+◌, ◌/◌, ◌%◌, ◌^◌, ◌≤◌, ◌<◌, ◌≡◌, refl, sym, ap, ◌∙◌, subst, inl, inr, Bool, true, false, List,
  [], ◌∷◌, ◌++◌, append_assoc, append-nil, arith,
}
use lali_rpc_frame.Base.Decimal.{to_decimal, decimal_loop}
use native.Mathlib.Nat.{pow-suc}
use lali_rpc_frame.Net.Buffer.{Buffer, IsValid, readable, append, new_buffer}
use lali_rpc_frame.Net.Buffer.Content.{append-readable, retrieve_as_string-readable}
use lali_rpc_frame.Net.Buffer.Queue.{new_buffer-IsValid}
use lali_rpc_frame.Net.Http.Request.{HttpRequest}
use lali_rpc_frame.Net.Http.Respond.{
  HttpRespond, new_respond, in_buf, append_to_buffer, append_headers,
}
use lali_rpc_frame.Net.Http.Server.{sends, shuts_down, HttpCallback, wants_close, on_request}

-- The text that a response stands for.
abbrev pub header_text : List (Bytes × Bytes) → Bytes
header_text [] = []
header_text ((name, value) ∷ hs) =
    name ++ (codes ": " ++ (value ++ (codes "\r\n" ++ header_text hs)))

abbrev pub connection_text : Bool → ℕ → Bytes
connection_text true size = codes "Connection: close\r\n"
connection_text false size =
    (codes "Content-Length: " ++ (to_decimal size ++ codes "\r\n"))
    ++ codes "Connection: Keep-Alive\r\n"

abbrev pub respond_text : HttpRespond → Bytes
respond_text r =
    codes "HTTP/1.1 "
    ++ (to_decimal r.status
        ++ (codes " "
            ++ (r.status_message
                ++ (codes "\r\n"
                    ++ (connection_text r.close_connection (length r.body)
                        ++ (header_text r.headers ++ (codes "\r\n" ++ r.body)))))))

-- A number below 10^k has at most k digits.
length-decimal_loop : (k f n : ℕ) → 0 < k → n < 10 ^ k → length (decimal_loop f n) ≤ k
unfolding decimal_loop
length-decimal_loop zero f n p h = absurd (omega arith)
length-decimal_loop (suc k) zero n p h = omega arith
length-decimal_loop (suc zero) (suc f) n p h = ground arith
length-decimal_loop (suc (suc k)) (suc f) n p h =
    let tens : n / 10 < 10 ^ suc k = omega (arith, pow-suc 10 (suc k)) in
    let fewer = length-decimal_loop (suc k) f (n / 10) (omega arith) tens in
    elim (Bool-cases (ltb n 10)) [
      | inl small ↦ rw small (omega arith)
      | inr big ↦
          rw big
            (omega (arith, fewer, length-append (decimal_loop f (n / 10)) ((48 + n % 10) ∷ [])))
    ]

length-to_decimal : (k n : ℕ) → 0 < k → n < 10 ^ k → length (to_decimal n) ≤ k
unfolding to_decimal
length-to_decimal k n p h = length-decimal_loop k (suc n) n p h

-- A buffer that is valid and holds a text.
abbrev Holds : Bytes → Buffer → Type 0
Holds text b = (readable b ≡ text) × IsValid b

Holds-append :
    (text bytes : Bytes) (b : Buffer) → Holds text b → Holds (text ++ bytes) (append bytes b)
Holds-append text bytes b h =
    let (content, valid) = append-readable bytes b h.1 in
    (content ∙ ap (λ l. l ++ bytes) h.0, valid)

Holds-append_headers :
    (hs : List (Bytes × Bytes)) (text : Bytes) (b : Buffer)
    → Holds text b
    → Holds (text ++ header_text hs) (append_headers b hs)
Holds-append_headers [] text b h = rw (append-nil text) h
Holds-append_headers ((name, value) ∷ hs) text b h =
    let h₁ = Holds-append text name b h in
    let h₂ = Holds-append _ (codes ": ") _ h₁ in
    let h₃ = Holds-append _ value _ h₂ in
    let h₄ = Holds-append _ (codes "\r\n") _ h₃ in
    let rest = Holds-append_headers hs _ _ h₄ in
    subst (λ t. Holds t (append_headers b ((name, value) ∷ hs))) (simp append_assoc) rest

fits :
    (head number tail : Bytes)
    → length head + (length number + length tail) ≤ 31
    → in_buf (head ++ (number ++ tail)) ≡ head ++ (number ++ tail)
fits head number tail h =
    take-length 31 (head ++ (number ++ tail))
      (omega (arith, length-append head (number ++ tail), length-append number tail))

Holds-in_buf :
    (bytes text : Bytes) (b : Buffer)
    → in_buf bytes ≡ bytes
    → Holds text b
    → Holds (text ++ bytes) (append (in_buf bytes) b)
Holds-in_buf bytes text b e h =
    subst (λ l. Holds (text ++ bytes) (append l b)) (sym e) (Holds-append text bytes b h)

Holds-connection :
    (close : Bool) (size : ℕ) (text : Bytes) (b : Buffer)
    → size < 10 ^ 13
    → Holds text b
    → Holds (text ++ connection_text close size) (
        if close
        then append (codes "Connection: close\r\n") b
        else append
            (codes "Connection: Keep-Alive\r\n")
            (append (in_buf (codes "Content-Length: " ++ (to_decimal size ++ codes "\r\n"))) b))
Holds-connection true size text b hs h = Holds-append text (codes "Connection: close\r\n") b h
Holds-connection false size text b hs h =
    let line = codes "Content-Length: " ++ (to_decimal size ++ codes "\r\n") in
    let h₁ =
      Holds-in_buf line text b
        (fits (codes "Content-Length: ") (to_decimal size) (codes "\r\n")
          (omega (arith, length-to_decimal 13 size (omega arith) hs)))
        h in
    subst (λ t. Holds t (append (codes "Connection: Keep-Alive\r\n") (append (in_buf line) b)))
      (append_assoc text line (codes "Connection: Keep-Alive\r\n"))
      (Holds-append (text ++ line) (codes "Connection: Keep-Alive\r\n") (append (in_buf line) b) h₁)

-- The response is appended to a valid buffer as its text, and the buffer stays valid, where the status
-- has at most three digits and the body less than 10^13 bytes.
pub append_to_buffer-readable :
    (r : HttpRespond) (output : Buffer)
    → IsValid output
    → r.status < 1000
    → length r.body < 10 ^ 13
    → (readable (append_to_buffer r output) ≡ readable output ++ respond_text r)
      × IsValid (append_to_buffer r output)
unfolding append_to_buffer
append_to_buffer-readable r output v hs hb =
    let status_line = codes "HTTP/1.1 " ++ (to_decimal r.status ++ codes " ") in
    let h₁ =
      Holds-in_buf status_line (readable output) output
        (fits (codes "HTTP/1.1 ") (to_decimal r.status) (codes " ")
          (omega (arith, length-to_decimal 3 r.status (omega arith) hs)))
        (refl, v) in
    let h₂ = Holds-append _ r.status_message _ h₁ in
    let h₃ = Holds-append _ (codes "\r\n") _ h₂ in
    let h₄ = Holds-connection r.close_connection (length r.body) _ _ hb h₃ in
    let h₅ = Holds-append_headers r.headers _ _ h₄ in
    let h₆ = Holds-append _ (codes "\r\n") _ h₅ in
    let h₇ = Holds-append _ r.body _ h₆ in
    subst (λ t. Holds t (append_to_buffer r output)) (simp append_assoc) h₇

-- A request is answered by the text of the callback's response, and the connection is shut down behind
-- it exactly if that response closes it, where the response's status has at most three digits and its
-- body less than 10^13 bytes.
pub on_request-text :
    (callback : HttpCallback) (request : HttpRequest)
    → let r = callback request (new_respond (wants_close request)) in
      r.status < 1000
      → length r.body < 10 ^ 13
      → on_request callback request ≡ (
          if r.close_connection
          then sends (respond_text r) ∷ shuts_down ∷ []
          else sends (respond_text r) ∷ [])
unfolding on_request
on_request-text callback request hs hb =
    let r = callback request (new_respond (wants_close request)) in
    let (empty, v) = new_buffer-IsValid in
    let written = append_to_buffer-readable r new_buffer v hs hb in
    let taken = retrieve_as_string-readable (append_to_buffer r new_buffer) written.1 in
    rw (taken.0 ∙ written.0 ∙ ap (λ l. l ++ respond_text r) empty)
