-- ===== src/Dns/Http/Requests.antt =====
-- The name that a client asks for is the one that the server reads.
use Prim.Native.Char.{code}
use rudp_agent_stack.Base.{
  Bool, true, not, ◌&&◌, ℕ, String, ◌≡◌, refl, ap, false, some, List, [], ◌∷◌, ◌==◌, string_eq,
  arith, nat_eq,
}
use rudp_agent_stack.Agent.Text.{starts_with, split}
use rudp_agent_stack.Dns.Http.{◌<+>◌, build_doh_request, first_line, name_in, parse_request}

-- No character of the text has this code.
abbrev pub Lacks : ℕ → String → Type 0
Lacks k String.[] = Unit
Lacks k (String.◌∷◌ c s) = ((code c == k) ≡ false) × Lacks k s

-- Lacks as a test.
abbrev pub lacks : ℕ → String → Bool
lacks k String.[] = true
lacks k (String.◌∷◌ c s) = not (code c == k) && lacks k s

pub lacks-Lacks : (k : ℕ) (s : String) → lacks k s ≡ true → Lacks k s
lacks-Lacks k String.[] h = tt
lacks-Lacks k (String.◌∷◌ c s) h = (ground arith, lacks-Lacks k s (ground arith))

split-one : (sep : ℕ) (s : String) → Lacks sep s → split sep s ≡ s ∷ []
unfolding split
split-one sep String.[] h = refl
split-one sep (String.◌∷◌ c s) h = rw (h.0, split-one sep s h.1) refl

split-prefix :
    (sep : ℕ) (s t : String) (rest : List String)
    → Lacks sep s
    → split sep t ≡ "" ∷ rest
    → split sep (s <+> t) ≡ s ∷ rest
unfolding split ◌<+>◌
split-prefix sep String.[] t rest h e = e
split-prefix sep (String.◌∷◌ c s) t rest h e = rw (h.0, split-prefix sep s t rest h.1 e) refl

pub apart : (k n : ℕ) → (n == k) ≡ false → (k == n) ≡ false
apart k n h = ground arith

first_line-prefix : (s t : String) → Lacks b'\r' s → first_line (s <+> t) ≡ s <+> first_line t
unfolding first_line ◌<+>◌ starts_with
first_line-prefix String.[] t h = refl
first_line-prefix (String.◌∷◌ c s) t h =
    rw (apart b'\r' (code c) h.0) (ap (String.◌∷◌ c) (first_line-prefix s t h.1))

-- The first line of a query for a plain name.
query_line :
    (name host : String) (port : ℕ)
    → Lacks b'\r' name
    → first_line (build_doh_request name host port)
      ≡ "GET /dns-query?name=" <+> name <+> " HTTP/1.1"
unfolding build_doh_request first_line ◌<+>◌ starts_with
query_line name host port h = ap (λ t. "GET /dns-query?name=" <+> t) (first_line-prefix name _ h)

query_parts :
    (name : String)
    → Lacks b' ' name
    → split b' ' ("GET /dns-query?name=" <+> name <+> " HTTP/1.1")
      ≡ "GET" ∷ ("/dns-query?name=" <+> name) ∷ "HTTP/1.1" ∷ []
unfolding split ◌<+>◌
query_parts name h = rw (split-prefix b' ' name " HTTP/1.1" ("HTTP/1.1" ∷ []) h refl) refl

name_in-query :
    (name : String)
    → Lacks b' ' name
    → Lacks b'=' name
    → name_in ("/dns-query?name=" <+> name) ≡ some name
unfolding split starts_with ◌<+>◌
name_in-query name h k = rw (split-one b'=' name k, split-one b' ' name h) refl

-- A name without a blank, an equals sign or a return.
pub record IsPlain (name : String) : Type 0 where
  pub no_blank : Lacks b' ' name
  pub no_equals : Lacks b'=' name
  pub no_return : Lacks b'\r' name

-- The server reads from the query the name that the client asks for, when it is a plain one.
pub parse_request-build_doh_request :
    (name host : String) (port : ℕ)
    → IsPlain name
    → parse_request (build_doh_request name host port) ≡ some name
unfolding parse_request
parse_request-build_doh_request name host port h =
    rw (query_line name host port h.no_return, query_parts name h.no_blank)
      (name_in-query name h.no_blank h.no_equals)
