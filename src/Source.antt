-- ===== src/Source.antt =====
-- crates/susun-source: byte offsets, spans and spanned values (src/source.rs, src/span.rs).
use susun.Prelude.{ℕ, if◌then◌else◌, ltb}

-- `SourceId` and `TextOffset` wrap a `u32`.
abbrev pub SourceId : Type 0
SourceId = ℕ

abbrev pub TextOffset : Type 0
TextOffset = ℕ

pub record Span : Type 0 where
  pub source_id : SourceId
  pub start : TextOffset
  pub end : TextOffset

pub data SourceError : Type 0 where
  span_start_after_end : (start end : ℕ) → SourceError
  unknown_source_id : ℕ → SourceError
  offset_out_of_bounds : (offset len : ℕ) → SourceError
  not_utf8_boundary : (offset : ℕ) → SourceError

pub data SourceResult {ℓ} (A : Type ℓ) : Type ℓ where
  ok : A → SourceResult A
  err : SourceError → SourceResult A

unfoldable pub new_span : SourceId → TextOffset → TextOffset → SourceResult Span
new_span source_id start end =
    if ltb end start
    then err (span_start_after_end start end)
    else ok (record { source_id = source_id; start = start; end = end })

unfoldable pub empty_span : SourceId → TextOffset → Span
empty_span source_id at = record { source_id = source_id; start = at; end = at }

pub record Spanned {ℓ} (A : Type ℓ) : Type ℓ where
  pub value : A
  pub span : Span

pub record LineColumn : Type 0 where
  pub line : ℕ
  pub column : ℕ
