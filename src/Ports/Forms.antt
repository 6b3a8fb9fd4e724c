-- ===== src/Ports/Forms.antt =====
-- crates/susun-normalize/src/port.rs: the short form against the long form.
use susun.Prelude.{
  ℕ, ◌≡◌, ◌↔◌, refl, true, not, none, some, [], ◌∷◌, ◌++◌, Text, arith, ◌==◌, all_chars, split_once,
}
use susun.Model.{CanonicalPort}
use susun.Ports.{
  ok, split_last, split_protocol, splitn_3, parse_parts, parse_short_str, RawPortLong,
  parse_long_target, parse_long,
}

-- The character does not occur.
abbrev pub IsWithout : ℕ → Text → Type 0
IsWithout d s = all_chars (λ c. not (c == d)) s ≡ true

split_once-at : (d : ℕ) (a b : Text) → IsWithout d a → split_once d (a ++ d ∷ b) ≡ some (a, b)
split_once-at d [] b h = ground arith
split_once-at d (c ∷ a) b h = ground (arith, split_once-at d a b)

split_last-none : (d : ℕ) (s : Text) → IsWithout d s → split_last d s ≡ none
unfolding split_last
split_last-none d [] h = refl
split_last-none d (c ∷ s) h = ground (arith, split_last-none d s)

split_last-at : (d : ℕ) (a b : Text) → IsWithout d b → split_last d (a ++ d ∷ b) ≡ some (a, b)
unfolding split_last
split_last-at d [] b h = ground (arith, split_last-none d b h)
split_last-at d (c ∷ a) b h = ground (arith, split_last-at d a b h)

-- `host:published:target/protocol`
abbrev pub short_form : (host_ip published target protocol : Text) → Text
short_form host_ip published target protocol =
    (host_ip ++ b':' ∷ (published ++ b':' ∷ target)) ++ b'/' ∷ protocol

abbrev pub long_form : (host_ip published target protocol : Text) → RawPortLong
long_form host_ip published target protocol = record {
  target = some target;
  published = some published;
  host_ip = some host_ip;
  protocol = some protocol;
  mode = none;
}

module _ (h p t r : Text) (hh : IsWithout b':' h) (hp : IsWithout b':' p)
    (hr : IsWithout b'/' r) where
  splitn_3-body : splitn_3 (h ++ b':' ∷ (p ++ b':' ∷ t)) ≡ h ∷ p ∷ t ∷ []
  unfolding splitn_3
  splitn_3-body = ground (arith, split_once-at b':' h (p ++ b':' ∷ t) hh, split_once-at b':' p t hp)

  -- A mapping of a host without `:`, a published port without `:`, a target and a protocol without `/`
  -- is accepted in the short form, as `host:published:target/protocol`, exactly if it is accepted in
  -- the long form, and with the same result.
  pub parse_short_str-parse_long :
      (port : CanonicalPort)
      → (parse_short_str (short_form h p t r) ≡ ok port)
        ↔ (parse_long (long_form h p t r) ≡ ok port)
  unfolding parse_short_str split_protocol parse_parts parse_long parse_long_target
  parse_short_str-parse_long port =
      ground (arith, split_last-at b'/' (h ++ b':' ∷ (p ++ b':' ∷ t)) r hr, splitn_3-body)
