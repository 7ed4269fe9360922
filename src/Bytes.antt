-- ===== src/Bytes.antt =====
-- The formats of Python's `struct` that the code uses, in network byte order. Packing a number that
-- does not fit its field raises `struct.error`.
use rudp_agent_stack.Base.{ℕ, ◌+◌, ◌*◌, ◌/◌, ◌%◌, ◌^◌, ◌<◌, Bool, List, [], ◌∷◌, ltb, All, get_or}

abbrev pub Bytes : Type 0
Bytes = List ℕ

abbrev pub IsBytes : Bytes → Type 0
IsBytes = All (λ b. b < 256)

abbrev pub fits : ℕ → ℕ → Bool
fits width v = ltb v (2 ^ width)

-- "!H" and "!I"
abbrev pub be16 : ℕ → Bytes
be16 v = v / 256 ∷ v % 256 ∷ []

abbrev pub be32 : ℕ → Bytes
be32 v = v / 2 ^ 24 ∷ v / 2 ^ 16 % 256 ∷ v / 2 ^ 8 % 256 ∷ v % 256 ∷ []

-- The fields that unpacking reads at an offset.
abbrev pub read8 : Bytes → ℕ → ℕ
read8 bs i = get_or bs i 0

abbrev pub read16 : Bytes → ℕ → ℕ
read16 bs i = read8 bs i * 256 + read8 bs (i + 1)

abbrev pub read32 : Bytes → ℕ → ℕ
read32 bs i =
    read8 bs i * 2 ^ 24 + read8 bs (i + 1) * 2 ^ 16 + read8 bs (i + 2) * 2 ^ 8 + read8 bs (i + 3)
