-- ===== src/Agent/Text.antt =====
-- What the agent uses of Python's `str`: the tests, the splitting and the printing of numbers.
use Prim.Native.Char.{Char, code}
use Prim.Native.String
use rudp_agent_stack.Base.{
  ℕ, zero, suc, ◌/◌, ◌%◌, String, Bool, true, false, ◌&&◌, ◌||◌, List, [], ◌∷◌, ltb, leb, ◌==◌,
  if◌then◌else◌,
}

infixr 65 ◌<>◌
abbrev pub ◌<>◌ : String → String → String
◌<>◌ = String.◌++◌

abbrev pub is_empty : String → Bool
is_empty String.[] = true
is_empty (String.◌∷◌ c s) = false

-- t.startswith(s)
unfoldable pub starts_with : String → String → Bool
starts_with String.[] t = true
starts_with (String.◌∷◌ c s) String.[] = false
starts_with (String.◌∷◌ c s) (String.◌∷◌ d t) = (code c == code d) && starts_with s t

-- s in t
unfoldable pub occurs : String → String → Bool
unfolding starts_with
occurs s String.[] = is_empty s
occurs s (String.◌∷◌ d t) = starts_with s (String.◌∷◌ d t) || occurs s t

abbrev pub cons_first : Char → List String → List String
cons_first c [] = String.◌∷◌ c String.[] ∷ []
cons_first c (s ∷ rest) = String.◌∷◌ c s ∷ rest

-- s.split(sep) for a separator of one character
unfoldable pub split : ℕ → String → List String
split sep String.[] = String.[] ∷ []
split sep (String.◌∷◌ c s) =
    let rest = split sep s in if code c == sep then String.[] ∷ rest else cons_first c rest

-- sep.join(parts)
unfoldable pub join : String → List String → String
join sep [] = String.[]
join sep (s ∷ []) = s
join sep (s ∷ (t ∷ rest)) = s <> (sep <> join sep (t ∷ rest))

-- A text file reads "\r\n" and "\r" as "\n"; `after_return` holds behind a "\r".
unfoldable pub newlines_from : Bool → String → String
newlines_from after_return String.[] = String.[]
newlines_from after_return (String.◌∷◌ c s) =
    let rest = newlines_from (code c == 13) s in
    if code c == 13
    then "\n" <> rest
    else if (code c == 10) && after_return
    then rest
    else String.◌∷◌ c rest

abbrev pub universal_newlines : String → String
universal_newlines s = newlines_from false s

-- The characters at which `splitlines` ends a line.
abbrev pub is_line_end : ℕ → Bool
is_line_end c =
    (leb 10 c && leb c 13)
    || ((leb 28 c && leb c 30) || ((c == 133) || ((c == 8232) || (c == 8233))))

-- s.splitlines(): "\r\n" is one end, and behind the last end stands no line.
unfoldable pub lines_from : Bool → String → List String
lines_from after_return String.[] = []
lines_from after_return (String.◌∷◌ c s) =
    let rest = lines_from (code c == 13) s in
    if (code c == 10) && after_return
    then rest
    else if is_line_end (code c)
    then String.[] ∷ rest
    else cons_first c rest

abbrev pub splitlines : String → List String
splitlines s = lines_from false s

-- The lines that a text file yields, each with its "\n".
unfoldable pub file_lines : String → List String
file_lines String.[] = []
file_lines (String.◌∷◌ c s) =
    let rest = file_lines s in if code c == 10 then "\n" ∷ rest else cons_first c rest

-- str.isspace() of one character
abbrev pub is_space : ℕ → Bool
is_space c =
    (leb 9 c && leb c 13)
    || ((leb 28 c && leb c 32)
        || ((leb 8192 c && leb c 8202)
            || ((c == 133)
                || ((c == 160)
                    || ((c == 5760)
                        || ((leb 8232 c && leb c 8233)
                            || ((c == 8239) || ((c == 8287) || (c == 12288)))))))))

unfoldable pub strip_left : String → String
strip_left String.[] = String.[]
strip_left (String.◌∷◌ c s) =
    let rest = strip_left s in if is_space (code c) then rest else String.◌∷◌ c s

unfoldable pub strip_right : String → String
strip_right String.[] = String.[]
strip_right (String.◌∷◌ c s) =
    let rest = strip_right s in
    if is_empty rest && is_space (code c) then String.[] else String.◌∷◌ c rest

-- s.strip()
abbrev pub strip : String → String
strip s = strip_right (strip_left s)

abbrev pub digit : ℕ → String
digit n = String.◌∷◌ (String.char_at "0123456789" n) String.[]

-- The digits of a number in front of a text; the number itself is enough fuel.
unfoldable pub digits_from : ℕ → ℕ → String → String
digits_from zero n s = digit (n % 10) <> s
digits_from (suc fuel) n s =
    let more = digits_from fuel (n / 10) (digit (n % 10) <> s) in
    if ltb n 10 then digit n <> s else more

-- str(n)
unfoldable pub decimal : ℕ → String
unfolding digits_from
decimal n = digits_from n n ""
