-- ===== src/Plan/Naming/Shape.antt =====
-- crates/susun-planner/src/naming.rs: the shape of the names that `runtime_name` gives.
use susun.Prelude.{
  ℕ, ◌≡◌, ◌≤◌, refl, true, false, Option, none, some, List, [], ◌∷◌, ◌++◌, Text, ltb, arith,
  all_chars, Bool-cases, inl, inr, length, ◌<◌, text, decimal,
}
use susun.Engine.{ServiceInstanceId, NetworkIdentity, VolumeIdentity}
use susun.Runtime.Labels.{ordinal}
use susun.Engine.Operations.{is_whitespace, new_name}
use susun.Plan.Naming.{
  NamingResult, ok, err, empty, too_long, NamingPolicy, susun_naming, compose_naming,
  normalize_parts, join_with, checked_name, runtime_name,
}
use susun.Plan.Naming.Parts.{
  is_start, is_part_char, is_name_char, starts, all_chars-append, IsShaped, AllShaped,
  normalize_parts-AllShaped,
}

all_chars-part : (p : Text) → all_chars is_part_char p ≡ true → all_chars is_name_char p ≡ true
all_chars-part [] h = refl
all_chars-part (c ∷ p) h = ground (arith, h, all_chars-part p (ground (arith, h)))

starts-append : (p t : Text) → starts p ≡ true → starts (p ++ t) ≡ true
starts-append [] t h = cc
starts-append (c ∷ p) t h = h

join_with-IsShaped :
    (separator : Text) (p : Text) (parts : List Text)
    → all_chars is_name_char separator ≡ true
    → AllShaped (p ∷ parts)
    → IsShaped is_name_char (join_with separator (p ∷ parts))
unfolding join_with AllShaped
join_with-IsShaped separator p [] h (s, _) = record {
  chars = all_chars-part p s.chars;
  first = s.first;
}
join_with-IsShaped separator p (q ∷ parts) h (s, more) =
    let rest = join_with-IsShaped separator q parts h more in
    let tail = join_with separator (q ∷ parts) in
    record {
      chars = ground (
        arith,
        all_chars-append is_name_char p (separator ++ tail),
        all_chars-append is_name_char separator tail,
        all_chars-part p s.chars,
        h,
        rest.chars,
      );
      first = starts-append p (separator ++ tail) s.first;
    }

-- A name that the engine takes: it starts with a lower-case letter or a digit, goes on with these, `-`
-- and `_`, and is no longer than the limit.
pub record IsRuntimeName (max_name_length : Option ℕ) (name : Text) : Type 0 where
  pub chars : all_chars is_name_char name ≡ true
  pub first : starts name ≡ true
  pub within : (limit : ℕ) → max_name_length ≡ some limit → length name ≤ limit

-- What a policy answers: such a name, or none because of the limit, or because nothing of the parts
-- is left.
pub data Answers (max_name_length : Option ℕ) (parts : List Text) : NamingResult Text → Type 0 where
  gives :
      {name : Text} → IsRuntimeName max_name_length name → Answers max_name_length parts (ok name)
  nameless :
      {kind : Text} → normalize_parts parts ≡ [] → Answers max_name_length parts (err (empty kind))
  above_limit :
      {kind name : Text} {limit : ℕ}
      → max_name_length ≡ some limit
      → limit < length name
      → Answers max_name_length parts (err (too_long kind name limit))

is_start-visible : (c : ℕ) → is_start c ≡ true → is_whitespace c ≡ false
is_start-visible c h = ground arith

given :
    (kind : Text) (max_name_length : Option ℕ) (parts : List Text) (c : ℕ) (name : Text)
    → IsRuntimeName max_name_length (c ∷ name)
    → Answers max_name_length parts
        (elim (new_name (c ∷ name)) [ none ↦ err (empty kind) | some n ↦ ok n ])
unfolding new_name
given kind max_name_length parts c name r =
    let visible : all_chars is_whitespace (c ∷ name) ≡ false =
      ground (arith, is_start-visible c r.first) in
    rw (visible, new_name) (gives r)

checked_name-Answers :
    (kind : Text) (max_name_length : Option ℕ) (parts : List Text) (c : ℕ) (name : Text)
    → IsShaped is_name_char (c ∷ name)
    → Answers max_name_length parts (checked_name kind max_name_length (c ∷ name))
unfolding checked_name
checked_name-Answers kind none parts c name s =
    given kind none parts c name
      (record { chars = s.chars; first = s.first; within = λ limit e. cc })
checked_name-Answers kind (some most) parts c name s =
    elim (Bool-cases (ltb most (length (c ∷ name)))) [
      | inl long ↦ rw (long, checked_name) (above_limit refl (ground (arith, long)))
      | inr fits ↦
          rw (fits, checked_name)
            (given kind (some most) parts c name (record {
              chars = s.chars;
              first = s.first;
              within = λ limit e. ground (arith, fits, e);
            }))
    ]

runtime_name-Answers :
    (kind : Text) (max_name_length : Option ℕ) (parts : List Text) (separator : Text)
    → all_chars is_name_char separator ≡ true
    → Answers max_name_length parts (runtime_name kind max_name_length parts separator)
unfolding runtime_name
runtime_name-Answers kind max_name_length parts separator h =
    joined_of (normalize_parts parts) refl (normalize_parts-AllShaped parts)
  where
    checked :
        (joined : Text)
        → IsShaped is_name_char joined
        → Answers max_name_length parts (checked_name kind max_name_length joined)
    checked [] s = cc (s.first)
    checked (c ∷ name) s = checked_name-Answers kind max_name_length parts c name s

    joined_of :
        (shaped : List Text)
        → normalize_parts parts ≡ shaped
        → AllShaped shaped
        → Answers max_name_length parts
            (checked_name kind max_name_length (join_with separator shaped))
    joined_of [] e all = nameless e
    joined_of (p ∷ more) e all =
        checked (join_with separator (p ∷ more)) (join_with-IsShaped separator p more h all)

-- The names of a policy, which puts `prefix` before the parts.
pub record AnswersAll (max_name_length : Option ℕ) (prefix : List Text) (policy : NamingPolicy)
    (container : ServiceInstanceId) (network_id : NetworkIdentity) (volume_id : VolumeIdentity)
    : Type 0 where
  pub of_container :
      Answers max_name_length
        (prefix ++ container.project ∷ container.service ∷ decimal (ordinal container.replica) ∷ [])
        (policy.container_name container)
  pub of_network :
      Answers max_name_length
        (prefix ++ network_id.project ∷ network_id.network ∷ [])
        (policy.network_name network_id)
  pub of_volume :
      Answers max_name_length
        (prefix ++ volume_id.project ∷ volume_id.volume ∷ [])
        (policy.volume_name volume_id)

-- Whatever a container, a network and a volume are called in the project, both policies give each of them
-- a name that starts with a lower-case letter or a digit, holds besides these only `-` and `_`, and is
-- no longer than the limit; or they refuse it with the limit that the name is above, or as empty, if
-- nothing of its parts is left after normalization.
pub naming-Answers :
    (max_name_length : Option ℕ) (container : ServiceInstanceId) (network_id : NetworkIdentity)
    (volume_id : VolumeIdentity)
    → AnswersAll max_name_length
        (text "susun" ∷ [])
        (susun_naming max_name_length)
        container
        network_id
        volume_id
      × AnswersAll max_name_length []
          (compose_naming max_name_length)
          container
          network_id
          volume_id
unfolding susun_naming compose_naming
naming-Answers max_name_length container network_id volume_id =
    let number = decimal (ordinal container.replica) in
    let answers =
      λ (kind : Text) (parts : List Text). runtime_name-Answers kind max_name_length parts in
    let susun =
      λ (kind : Text) (parts : List Text). answers kind (text "susun" ∷ parts) (text "-") refl in
    let compose = λ (kind : Text) (parts : List Text). answers kind parts (text "_") refl in
    let c = container.project ∷ container.service ∷ number ∷ [] in
    let n = network_id.project ∷ network_id.network ∷ [] in
    let v = volume_id.project ∷ volume_id.volume ∷ [] in
    (
      record {
        of_container = susun (text "container") c;
        of_network = susun (text "network") n;
        of_volume = susun (text "volume") v;
      },
      record {
        of_container = compose (text "container") c;
        of_network = compose (text "network") n;
        of_volume = compose (text "volume") v;
      },
    )
