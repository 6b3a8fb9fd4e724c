-- ===== src/Plan/Id.antt =====
-- crates/susun-planner/src/id.rs: identifiers by a hash (FNV-1a on 64 bits) of their parts.
use Prim.Native.Nat.{bit_xor, ◌/◌}
use susun.Prelude.{
  ℕ, zero, suc, ◌+◌, ◌*◌, ◌%◌, ◌^◌, List, [], ◌∷◌, ◌++◌, Text, text, ltb, if◌then◌else◌,
}
use susun.Plan.{ActionId}

-- The bytes of a character in UTF-8, which `str::as_bytes` returns.
abbrev pub utf8 : ℕ → List ℕ
utf8 c =
    if ltb c 128
    then c ∷ []
    else if ltb c 2048
    then (192 + c / 64) ∷ (128 + c % 64) ∷ []
    else if ltb c 65536
    then (224 + c / 4096) ∷ (128 + c / 64 % 64) ∷ (128 + c % 64) ∷ []
    else (240 + c / 262144) ∷ (128 + c / 4096 % 64) ∷ (128 + c / 64 % 64) ∷ (128 + c % 64) ∷ []

unfoldable pub as_bytes : Text → List ℕ
as_bytes [] = []
as_bytes (c ∷ s) = utf8 c ++ as_bytes s

-- `StableIdBuilder::OFFSET` and `PRIME`
abbrev pub fnv_offset : ℕ
fnv_offset = 0xcbf29ce484222325

abbrev pub fnv_prime : ℕ
fnv_prime = 0x100000001b3

-- `StableIdBuilder::bytes`; the state is a `u64`.
unfoldable pub add_bytes : (state : ℕ) → List ℕ → ℕ
add_bytes state [] = state
add_bytes state (b ∷ bytes) = add_bytes (bit_xor state b * fnv_prime % 2 ^ 64) bytes

-- `StableIdBuilder::part`
unfoldable pub add_part : (state : ℕ) → Text → ℕ
unfolding add_bytes as_bytes
add_part state value = add_bytes (add_bytes state (as_bytes value)) (0 ∷ [])

unfoldable pub add_parts : (state : ℕ) → List Text → ℕ
unfolding add_part
add_parts state [] = state
add_parts state (p ∷ parts) = add_parts (add_part state p) parts

-- `StableIdBuilder::hash`
unfoldable pub hash : List Text → ℕ
unfolding add_parts
hash parts = add_parts fnv_offset parts

abbrev pub hex_digit : ℕ → ℕ
hex_digit d = if ltb d 10 then 48 + d else 87 + d

-- The last `width` hexadecimal digits of `n`, in front of `acc`.
unfoldable pub hex_onto : (width n : ℕ) → Text → Text
hex_onto zero n acc = acc
hex_onto (suc width) n acc = hex_onto width (n / 16) (hex_digit (n % 16) ∷ acc)

-- `ActionId::from_parts`
unfoldable pub action_id_from_parts : List Text → ActionId
unfolding hash hex_onto
action_id_from_parts parts = text "act-" ++ hex_onto 16 (hash parts) []

-- `PlanId::from_parts`
unfoldable pub plan_id_from_parts : List Text → Text
unfolding hash hex_onto
plan_id_from_parts parts = text "plan-" ++ hex_onto 16 (hash parts) []
