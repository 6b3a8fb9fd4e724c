-- ===== src/Environment.antt =====
-- crates/susun-loader/src/environment: the layers of variables (provider.rs, resolve.rs).
-- A provider is any function from names to values, as the trait `EnvironmentProvider` allows.
use susun.Prelude.{Option, none, some, List, [], ◌∷◌, Text, ◌=?◌, list_eq, nat_eq, if◌then◌else◌}
use susun.Source.{Span}

pub record DotenvEntry : Type 0 where
  pub key : Text
  pub value : Text
  pub key_span : Span

-- `EnvironmentProvider::get`
abbrev pub EnvironmentProvider : Type 0
EnvironmentProvider = Text → Option Text

pub record EnvResolver : Type 0 where
  pub process : EnvironmentProvider
  pub env_file : List DotenvEntry
  pub dotenv : List DotenvEntry

unfoldable pub find_in : List DotenvEntry → Text → Option Text
find_in [] key = none
find_in (e ∷ entries) key = if e.key =? key then some e.value else find_in entries key

-- `Option::or_else`
abbrev pub or_else {ℓ} : {A : Type ℓ} → Option A → Option A → Option A
or_else (some a) b = some a
or_else none b = b

-- `EnvResolver::get`
unfoldable pub resolve : EnvResolver → Text → Option Text
unfolding find_in
resolve r key = or_else (or_else (r.process key) (find_in r.env_file key)) (find_in r.dotenv key)
