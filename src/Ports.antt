-- ===== src/Ports.antt =====
-- crates/susun-normalize/src/port.rs: the port mappings of a service, in the short and the long form.
pub mod Bounds
pub mod Numbers
pub mod Forms
mod Examples
use susun.Prelude.{
  ℕ, ◌+◌, ◌-◌, ◌*◌, ◌%◌, Bool, true, false, ◌||◌, Option, none, some, List, [], ◌∷◌, ◌++◌, Text,
  text, list_eq, nat_eq, ◌=?◌, ◌==◌, ltb, if◌then◌else◌, is_ascii_digit, split_once,
}
use susun.Model.{Protocol, tcp, udp, sctp, PublishedPort, single, range, CanonicalPort}

pub data PortParseError : Type 0 where
  invalid_format out_of_range : Text → PortParseError
  invalid_range : (start end : ℕ) → PortParseError
  unknown_protocol : Text → PortParseError

pub data PortResult {ℓ} (A : Type ℓ) : Type ℓ where
  ok : A → PortResult A
  err : PortParseError → PortResult A

infixl 5 ◌>>=◌
abbrev pub ◌>>=◌ {ℓ κ} :
    {A : Type ℓ} {B : Type κ} → PortResult A → (A → PortResult B) → PortResult B
ok a >>= f = f a
err e >>= f = err e

-- `.map(parse).transpose()?`
abbrev pub transpose {ℓ} :
    {A : Type ℓ} → (Text → PortResult A) → Option Text → PortResult (Option A)
transpose f none = ok none
transpose f (some s) = f s >>= λ a. ok (some a)

-- `str::parse::<u32>` on the digits that are left, with the value of those before: it fails on
-- another character and on a value that a `u32` does not hold.
unfoldable pub parse_digits : (value : ℕ) → Text → Option ℕ
parse_digits value [] = some value
parse_digits value (c ∷ s) =
    let next = value * 10 + (c - 48) in
    let rest = parse_digits next s in
    if is_ascii_digit c then if ltb next 4294967296 then rest else none else none

-- `str::parse::<u32>`: one `+` may stand in front, and at least one digit must.
unfoldable pub parse_u32 : Text → Option ℕ
unfolding parse_digits
parse_u32 [] = none
parse_u32 (c ∷ []) = parse_digits 0 (c ∷ [])
parse_u32 (c ∷ d ∷ s) = if c == b'+' then parse_digits 0 (d ∷ s) else parse_digits 0 (c ∷ d ∷ s)

-- `n == 0 || n > 65535`, and the cast of `n` to `u16`.
abbrev pub checked_port : Text → ℕ → PortResult ℕ
checked_port s n = if n == 0 || ltb 65535 n then err (out_of_range s) else ok (n % 65536)

unfoldable pub parse_port_num : Text → PortResult ℕ
unfolding parse_u32
parse_port_num [] = err (invalid_format [])
parse_port_num (c ∷ s) = elim (parse_u32 (c ∷ s)) [
  | none ↦ err (out_of_range (c ∷ s))
  | some n ↦ checked_port (c ∷ s) n
]

abbrev pub checked_range : (start end : ℕ) → PortResult PublishedPort
checked_range start end =
    if ltb end start then err (invalid_range start end) else ok (range start end)

unfoldable pub parse_published : Text → PortResult PublishedPort
unfolding parse_port_num
parse_published s = elim (split_once b'-' s) [
  | some (a, b) ↦ do start ← parse_port_num a; end ← parse_port_num b; checked_range start end
  | none ↦ do port ← parse_port_num s; ok (single port)
]

unfoldable pub parse_protocol : Text → PortResult Protocol
parse_protocol s =
    if s =? text "tcp"
    then ok tcp
    else if s =? text "udp"
    then ok udp
    else if s =? text "sctp"
    then ok sctp
    else err (unknown_protocol s)

-- `s.rfind(c)` used to cut: the text before the last `c`, and the text behind it.
unfoldable pub split_last : ℕ → Text → Option (Text × Text)
split_last d [] = none
split_last d (c ∷ s) = elim (split_last d s) [
  | some (a, b) ↦ some (c ∷ a, b)
  | none ↦ if c == d then some ([], s) else none
]

unfoldable pub split_protocol : Text → PortResult (Text × Protocol)
unfolding split_last parse_protocol
split_protocol s = elim (split_last b'/' s) [
  | some (body, suffix) ↦ do protocol ← parse_protocol suffix; ok (body, protocol)
  | none ↦ ok (s, tcp)
]

-- `body.splitn(3, ':').collect()`
unfoldable pub splitn_3 : Text → List Text
splitn_3 body = elim (split_once b':' body) [
  | none ↦ body ∷ []
  | some (a, rest) ↦ elim (split_once b':' rest) [
    | none ↦ a ∷ rest ∷ []
    | some (b, c) ↦ a ∷ b ∷ c ∷ []
  ]
]

-- The `match parts.len()` of `parse_short_str`.
unfoldable pub parse_parts : (s : Text) → Protocol → (parts : List Text) → PortResult CanonicalPort
unfolding parse_port_num parse_published
parse_parts s protocol (t ∷ []) = do
  target ← parse_port_num t
  ok (record { host_ip = none; published = none; target = target; protocol = protocol })
parse_parts s protocol (p ∷ t ∷ []) = do
  published ← parse_published p
  target ← parse_port_num t
  ok (record { host_ip = none; published = some published; target = target; protocol = protocol })
parse_parts s protocol (host_ip ∷ p ∷ t ∷ []) = do
  published ← parse_published p
  target ← parse_port_num t
  ok (record {
    host_ip = some host_ip;
    published = some published;
    target = target;
    protocol = protocol;
  })
parse_parts s protocol _ = err (invalid_format s)

unfoldable pub parse_short_str : Text → PortResult CanonicalPort
unfolding split_protocol splitn_3 parse_parts
parse_short_str s = do (body, protocol) ← split_protocol s; parse_parts s protocol (splitn_3 body)

-- The fields' spans are not read.
pub record RawPortLong : Type 0 where
  pub target : Option Text
  pub published : Option Text
  pub host_ip : Option Text
  pub protocol : Option Text
  pub mode : Option Text

abbrev pub unwrap_protocol : Option Protocol → Protocol
unwrap_protocol none = tcp
unwrap_protocol (some p) = p

-- `parse_long`, from the target on.
unfoldable pub parse_long_target : RawPortLong → (target : ℕ) → PortResult CanonicalPort
unfolding parse_published parse_protocol
parse_long_target long target = do
  published ← transpose parse_published long.published
  protocol ← transpose parse_protocol long.protocol
  ok (record {
    host_ip = long.host_ip;
    published = published;
    target = target;
    protocol = unwrap_protocol protocol;
  })

unfoldable pub parse_long : RawPortLong → PortResult CanonicalPort
unfolding parse_long_target parse_port_num
parse_long long = elim long.target [
  | none ↦ err (invalid_format (text "long-form port missing `target`"))
  | some s ↦ parse_port_num s >>= parse_long_target long
]

pub data RawPortEntry : Type 0 where
  short : Text → RawPortEntry
  long : RawPortLong → RawPortEntry

unfoldable pub parse_port_entry : RawPortEntry → PortResult CanonicalPort
unfolding parse_short_str parse_long
parse_port_entry (short s) = parse_short_str s
parse_port_entry (long l) = parse_long l
