-- ===== src/Ports/Bounds.antt =====
-- crates/susun-normalize/src/port.rs: the bounds of port numbers.
use susun.Prelude.{
  ℕ, ◌≤◌, ◌≡◌, ◌⊎◌, inl, inr, refl, Option, none, some, List, [], ◌∷◌, Text, arith, Option-cases,
  split_once,
}
use susun.Model.{Protocol, PublishedPort, single, range, CanonicalPort}
use susun.Ports.{
  PortResult, ok, err, PortParseError, transpose, unwrap_protocol, parse_u32, checked_port,
  parse_port_num, checked_range, parse_published, parse_protocol, split_protocol, splitn_3,
  parse_parts, parse_short_str, RawPortLong, parse_long_target, parse_long, RawPortEntry, short,
  long, parse_port_entry,
}

abbrev pub IsPort : ℕ → Type 0
IsPort n = (1 ≤ n) × (n ≤ 65535)

abbrev pub IsPublished : Option PublishedPort → Type 0
IsPublished none = Unit
IsPublished (some (single n)) = IsPort n
IsPublished (some (range start end)) = IsPort start × (start ≤ end) × IsPort end

PortResult-cases :
    {A : Type 0} (m : PortResult A) → ((a : A) × (m ≡ ok a)) ⊎ ((e : PortParseError) × (m ≡ err e))
PortResult-cases (ok a) = inl (a, refl)
PortResult-cases (err e) = inr (e, refl)

checked_port-IsPort : (s : Text) (n m : ℕ) → checked_port s n ≡ ok m → IsPort m
checked_port-IsPort s n m h = (ground arith, ground arith)

parse_port_num-IsPort : (s : Text) (n : ℕ) → parse_port_num s ≡ ok n → IsPort n
unfolding parse_port_num
parse_port_num-IsPort [] n h = ground arith
parse_port_num-IsPort (c ∷ s) n h = elim (Option-cases (parse_u32 (c ∷ s))) [
  | inl e ↦ ground (arith, e)
  | inr (m, e) ↦ checked_port-IsPort (c ∷ s) m n (ground (arith, e, h))
]

checked_range-IsPublished :
    (start end : ℕ) (p : PublishedPort)
    → IsPort start
    → IsPort end
    → checked_range start end ≡ ok p
    → IsPublished (some p)
checked_range-IsPublished start end (single n) hs he h = ground arith
checked_range-IsPublished start end (range a b) hs he h =
    ((ground arith, ground arith), ground arith, (ground arith, ground arith))

parse_published-IsPublished :
    (s : Text) (p : PublishedPort) → parse_published s ≡ ok p → IsPublished (some p)
unfolding parse_published
parse_published-IsPublished s p h = elim (Option-cases (split_once b'-' s)) [
  | inl e ↦ elim (PortResult-cases (parse_port_num s)) [
    | inl (n, en) ↦ single_port p n (ground (arith, e, en, h)) (parse_port_num-IsPort s n en)
    | inr (x, ex) ↦ ground (arith, e, ex, h)
  ]
  | inr ((a, b), e) ↦ elim (PortResult-cases (parse_port_num a)) [
    | inr (x, ex) ↦ ground (arith, e, ex, h)
    | inl (start, ea) ↦ elim (PortResult-cases (parse_port_num b)) [
      | inr (x, ex) ↦ ground (arith, e, ea, ex, h)
      | inl (end, eb) ↦
          checked_range-IsPublished start end p (parse_port_num-IsPort a start ea)
            (parse_port_num-IsPort b end eb) (ground (arith, e, ea, eb, h))
    ]
  ]
]
  where
    single_port : (p : PublishedPort) (n : ℕ) → single n ≡ p → IsPort n → IsPublished (some p)
    single_port (single m) n same h = (ground arith, ground arith)
    single_port (range a b) n same h = ground arith

-- What an accepted mapping promises.
abbrev pub IsValid : CanonicalPort → Type 0
IsValid port = IsPort port.target × IsPublished port.published

transpose-IsPublished :
    (o : Option Text) (p : Option PublishedPort)
    → transpose parse_published o ≡ ok p
    → IsPublished p
transpose-IsPublished none none h = tt
transpose-IsPublished none (some p) h = ground arith
transpose-IsPublished (some s) p h = elim (PortResult-cases (parse_published s)) [
  | inl (q, e) ↦
      rw (← some_published q p (ground (arith, e, h))) (parse_published-IsPublished s q e)
  | inr (x, e) ↦ ground (arith, e, h)
]
  where
    some_published :
        (q : PublishedPort) (p : Option PublishedPort) → PortResult.ok (some q) ≡ ok p → some q ≡ p
    some_published q p h = cc

ok-IsValid : (q port : CanonicalPort) → PortResult.ok q ≡ ok port → IsValid q → IsValid port
ok-IsValid q port h v = rw (← same q port h) v
  where
    same : (q port : CanonicalPort) → PortResult.ok q ≡ ok port → q ≡ port
    same q port h = cc

parse_parts-IsValid :
    (s : Text) (protocol : Protocol) (parts : List Text) (port : CanonicalPort)
    → parse_parts s protocol parts ≡ ok port
    → IsValid port
unfolding parse_parts
parse_parts-IsValid s protocol [] port h = ground arith
parse_parts-IsValid s protocol (t ∷ []) port h = elim (PortResult-cases (parse_port_num t)) [
  | inl (n, e) ↦
      ok-IsValid (record { host_ip = none; published = none; target = n; protocol = protocol }) port
        (ground (arith, e, h)) (parse_port_num-IsPort t n e, tt)
  | inr (x, e) ↦ ground (arith, e, h)
]
parse_parts-IsValid s protocol (p ∷ t ∷ []) port h = elim (PortResult-cases (parse_published p)) [
  | inr (x, ep) ↦ ground (arith, ep, h)
  | inl (q, ep) ↦ elim (PortResult-cases (parse_port_num t)) [
    | inr (x, e) ↦ ground (arith, ep, e, h)
    | inl (n, e) ↦
        ok-IsValid (record { host_ip = none; published = some q; target = n; protocol = protocol })
          port (ground (arith, ep, e, h))
          (parse_port_num-IsPort t n e, parse_published-IsPublished p q ep)
  ]
]
parse_parts-IsValid s protocol (i ∷ p ∷ t ∷ []) port h =
    elim (PortResult-cases (parse_published p)) [
      | inr (x, ep) ↦ ground (arith, ep, h)
      | inl (q, ep) ↦ elim (PortResult-cases (parse_port_num t)) [
        | inr (x, e) ↦ ground (arith, ep, e, h)
        | inl (n, e) ↦
            ok-IsValid
              (record { host_ip = some i; published = some q; target = n; protocol = protocol })
              port (ground (arith, ep, e, h))
              (parse_port_num-IsPort t n e, parse_published-IsPublished p q ep)
      ]
    ]
parse_parts-IsValid s protocol (i ∷ p ∷ t ∷ u ∷ more) port h = ground arith

parse_long_target-IsValid :
    (l : RawPortLong) (n : ℕ) (port : CanonicalPort)
    → IsPort n
    → parse_long_target l n ≡ ok port
    → IsValid port
unfolding parse_long_target
parse_long_target-IsValid l n port hn h =
    elim (PortResult-cases (transpose parse_published l.published)) [
      | inr (x, ep) ↦ ground (arith, ep, h)
      | inl (q, ep) ↦ elim (PortResult-cases (transpose parse_protocol l.protocol)) [
        | inr (x, e) ↦ ground (arith, ep, e, h)
        | inl (r, e) ↦
            ok-IsValid
              (record {
                host_ip = l.host_ip;
                published = q;
                target = n;
                protocol = unwrap_protocol r;
              })
              port (ground (arith, ep, e, h)) (hn, transpose-IsPublished l.published q ep)
      ]
    ]

-- A mapping that is accepted, in the short or the long form, has a target between 1 and 65535, and its
-- published port, if there is one, lies there too; a published range does not end before it starts.
pub parse_port_entry-IsValid :
    (entry : RawPortEntry) (port : CanonicalPort) → parse_port_entry entry ≡ ok port → IsValid port
unfolding parse_port_entry parse_short_str parse_long
parse_port_entry-IsValid (short s) port h = elim (PortResult-cases (split_protocol s)) [
  | inl ((body, protocol), e) ↦
      parse_parts-IsValid s protocol (splitn_3 body) port (ground (arith, e, h))
  | inr (x, e) ↦ ground (arith, e, h)
]
parse_port_entry-IsValid (long l) port h = elim (Option-cases l.target) [
  | inl e ↦ ground (arith, e, h)
  | inr (s, e) ↦ elim (PortResult-cases (parse_port_num s)) [
    | inl (n, en) ↦
        parse_long_target-IsValid l n port (parse_port_num-IsPort s n en) (ground (arith, e, en, h))
    | inr (x, en) ↦ ground (arith, e, en, h)
  ]
]
