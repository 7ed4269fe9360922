-- ===== src/Dns/Http/Answers.antt =====
-- The body that the server puts into an answer is the one that the client reads.
use Prim.Native.Char.{Char, code}
use Prim.Native.String
use rudp_agent_stack.Base.{
  ℕ, zero, suc, ◌/◌, ◌%◌, ◌<◌, String, ◌≡◌, refl, ap, sym, ◌∙◌, subst, false, some, ◌==◌, ltb,
  ltb→lt, nat_eq, arith, inl, inr, Bool-cases,
}
use rudp_agent_stack.Agent.Text.{◌<>◌, starts_with, digit, digits_from, decimal}
use rudp_agent_stack.Agent.Values.{Value}
use rudp_agent_stack.Agent.Paths.Names.{nil-append, cons-append}
use rudp_agent_stack.Dns.Http.{
  JsonText, ◌<+>◌, len, build_json_response, status_text, body_of, drop_chars, parse_response,
}
use rudp_agent_stack.Dns.Http.Requests.{Lacks, apart}

digit_code : (n : ℕ) → n < 10 → (code (String.char_at "0123456789" n) == b'\r') ≡ false
digit_code zero h = refl
digit_code (suc zero) h = refl
digit_code (suc (suc zero)) h = refl
digit_code (suc (suc (suc zero))) h = refl
digit_code (suc (suc (suc (suc zero)))) h = refl
digit_code (suc (suc (suc (suc (suc zero))))) h = refl
digit_code (suc (suc (suc (suc (suc (suc zero)))))) h = refl
digit_code (suc (suc (suc (suc (suc (suc (suc zero))))))) h = refl
digit_code (suc (suc (suc (suc (suc (suc (suc (suc zero)))))))) h = refl
digit_code (suc (suc (suc (suc (suc (suc (suc (suc (suc zero))))))))) h = refl
digit_code (suc (suc (suc (suc (suc (suc (suc (suc (suc (suc n)))))))))) h = absurd (omega arith)

digit-Lacks : (n : ℕ) (s : String) → n < 10 → Lacks b'\r' s → Lacks b'\r' (digit n <> s)
digit-Lacks n s small h =
    let c : Char = String.char_at "0123456789" n in
    let e : String.◌∷◌ c s ≡ digit n <> s =
      sym (cons-append c "" s ∙ ap (String.◌∷◌ c) (nil-append s)) in
    subst (Lacks b'\r') e (digit_code n small, h)

digits_from-Lacks : (fuel n : ℕ) (s : String) → Lacks b'\r' s → Lacks b'\r' (digits_from fuel n s)
unfolding digits_from
digits_from-Lacks zero n s h = digit-Lacks (n % 10) s (omega arith) h
digits_from-Lacks (suc fuel) n s h = elim (Bool-cases (ltb n 10)) [
  | inl small ↦ rw small (digit-Lacks n s (ltb→lt n 10 small) h)
  | inr large ↦ rw large (
      digits_from-Lacks fuel (n / 10) (digit (n % 10) <> s)
        (digit-Lacks (n % 10) s (omega arith) h))
]

decimal-Lacks : (n : ℕ) → Lacks b'\r' (decimal n)
unfolding decimal
decimal-Lacks n = digits_from-Lacks n n "" tt

body_of-prefix : (s t : String) → Lacks b'\r' s → body_of (s <+> t) ≡ body_of t
unfolding body_of ◌<+>◌ starts_with
body_of-prefix String.[] t h = refl
body_of-prefix (String.◌∷◌ c s) t h = rw (apart b'\r' (code c) h.0) (body_of-prefix s t h.1)

blank_line : (t : String) → body_of ("\r\n\r\n" <+> t) ≡ some t
unfolding body_of ◌<+>◌ starts_with drop_chars
blank_line t = refl

version : (t : String) → body_of ("HTTP/1.1 " <+> t) ≡ body_of t
unfolding body_of ◌<+>◌ starts_with
version t = refl

blank : (t : String) → body_of (" " <+> t) ≡ body_of t
unfolding body_of ◌<+>◌ starts_with
blank t = refl

headers :
    (t : String)
    → body_of ("\r\nContent-Type: application/json\r\nContent-Length: " <+> t) ≡ body_of t
unfolding body_of ◌<+>◌ starts_with
headers t = refl

status_text-Lacks : (n : ℕ) → Lacks b'\r' (status_text n)
status_text-Lacks n = elim (Bool-cases (n == 404)) [
  | inl e ↦ rw e (refl, (refl, (refl, (refl, (refl, (refl, (refl, (refl, (refl, tt)))))))))
  | inr e ↦ rw e (elim (Bool-cases (n == 200)) [
    | inl d ↦ rw d (refl, (refl, tt))
    | inr d ↦ rw d (refl, (refl, (refl, (refl, (refl, tt)))))
  ])
]

-- The client reads the value that the server sends, when JSON reads it back.
pub parse_response-build_json_response :
    (json : JsonText) (status_code : ℕ) (v : Value)
    → json.loads (json.dumps v) ≡ some v
    → parse_response json (build_json_response json status_code v) ≡ some v
unfolding parse_response build_json_response
parse_response-build_json_response json status_code v h =
    let body_str = json.dumps v in
    rw
      (
        version _,
        body_of-prefix (decimal status_code) _ (decimal-Lacks status_code),
        blank _,
        body_of-prefix (status_text status_code) _ (status_text-Lacks status_code),
        headers _,
        body_of-prefix (decimal (len body_str)) _ (decimal-Lacks (len body_str)),
        blank_line body_str,
      )
      h
