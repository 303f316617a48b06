-- ===== src/Chunker/Splitter/Parted.antt =====
-- SplitText of internal/chunker/splitter.go: its chunks that start with a header stand apart.
use Prim.Native.String.{String}
use lybrix.Base.{
  ℕ, ◌≤◌, ◌≡◌, refl, ap, sym, ◌∙◌, inl, inr, none, ltb, ◌==◌, ◌&&◌, ◌/◌, if◌then◌else◌, length,
  arith, Bool-cases, All,
}
use lybrix.Chunker.Runes.{Text}
use lybrix.Chunker.Units.{Patterns}
use lybrix.Chunker.Spans.{protected_spans}
use lybrix.Chunker.Spans.Disjoint.{InText, protected_spans-Ordered}
use lybrix.Chunker.Sources.{build_units_with_protection}
use lybrix.Chunker.Sources.Tiled.{build_units-Run}
use lybrix.Chunker.Merge.{absolute_max_size}
use lybrix.Chunker.Merge.Tight.{Tight, last_of, EndsBy}
use lybrix.Chunker.Merge.Rounds.{merge_units-Tight}
use lybrix.Chunker.Splitter.{
  SplitterConfig, default_chunk_size, normalize_config, first_language, capped_overlap,
  with_token_budget, ensure_defaults, split_text,
}

capped_overlap-size : (cfg : SplitterConfig) → (capped_overlap cfg).chunk_size ≡ cfg.chunk_size
unfolding capped_overlap
capped_overlap-size cfg =
    elim (Bool-cases (ltb 0 cfg.chunk_size && ltb (cfg.chunk_size / 2) cfg.chunk_overlap)) [
      | inl wide ↦ rw wide refl
      | inr fits ↦ rw fits refl
    ]

module _ (chars_for_token_limit : ℕ → String → ℕ) where
  -- The chunk size that is used in the end.
  abbrev pub used_size : SplitterConfig → ℕ
  used_size cfg = (ensure_defaults chars_for_token_limit cfg).chunk_size

  pub split_text-Tight :
      (ps : Patterns) (text : Text) (cfg : SplitterConfig)
      → All (InText text) (ps.protected text)
      → used_size cfg ≤ absolute_max_size
      → Tight (used_size cfg) none (split_text chars_for_token_limit ps text cfg)
        × EndsBy (length text) (last_of none (split_text chars_for_token_limit ps text cfg))
  unfolding split_text
  split_text-Tight ps text cfg h small =
      let cfg' = ensure_defaults chars_for_token_limit cfg in
      let spans = protected_spans ps text in
      let units = build_units_with_protection text spans cfg'.separators cfg'.chunk_size in
      elim (Bool-cases (length text == 0)) [
        | inl empty ↦ rw empty (tt, tt)
        | inr filled ↦ rw filled (
            merge_units-Tight ps text cfg'.chunk_size cfg'.chunk_overlap 0 (length text) units small
              (build_units-Run text spans cfg'.separators cfg'.chunk_size
                (protected_spans-Ordered ps text h)))
      ]

  abbrev budget_of : SplitterConfig → ℕ
  budget_of cfg = chars_for_token_limit cfg.token_limit (first_language cfg.languages)

  abbrev size_of : ℕ → ℕ → ℕ → ℕ
  size_of limit budget size =
      let given = if size == 0 then default_chunk_size else size in
      if ltb 0 limit && (ltb 0 budget && ltb budget given) then budget else given

  used_size-is :
      (cfg : SplitterConfig)
      → used_size cfg ≡ size_of cfg.token_limit (budget_of cfg) cfg.chunk_size
  unfolding ensure_defaults with_token_budget normalize_config
  used_size-is cfg =
      let given = if cfg.chunk_size == 0 then default_chunk_size else cfg.chunk_size in
      let normal = normalize_config cfg in
      capped_overlap-size (with_token_budget chars_for_token_limit normal)
      ∙ elim (Bool-cases
          (ltb 0 cfg.token_limit && (ltb 0 (budget_of cfg) && ltb (budget_of cfg) given))) [
            | inl tight ↦ rw tight refl
            | inr wide ↦ rw wide refl
          ]

  kept_fields :
      (cfg : SplitterConfig)
      → ((ensure_defaults chars_for_token_limit cfg).token_limit ≡ cfg.token_limit)
        × (budget_of (ensure_defaults chars_for_token_limit cfg) ≡ budget_of cfg)
  unfolding ensure_defaults with_token_budget normalize_config capped_overlap
  kept_fields cfg =
      let given = if cfg.chunk_size == 0 then default_chunk_size else cfg.chunk_size in
      let budgeted = with_token_budget chars_for_token_limit (normalize_config cfg) in
      elim (Bool-cases
        (ltb 0 cfg.token_limit && (ltb 0 (budget_of cfg) && ltb (budget_of cfg) given))) [
          | inl tight ↦
              elim (Bool-cases (
                ltb 0 budgeted.chunk_size
                && ltb (budgeted.chunk_size / 2) budgeted.chunk_overlap)) [
                  | inl cut ↦ rw (cut, tight) (refl, refl)
                  | inr room ↦ rw (room, tight) (refl, refl)
                ]
          | inr wide ↦
              elim (Bool-cases (
                ltb 0 budgeted.chunk_size
                && ltb (budgeted.chunk_size / 2) budgeted.chunk_overlap)) [
                  | inl cut ↦ rw (cut, wide) (refl, refl)
                  | inr room ↦ rw (room, wide) (refl, refl)
                ]
        ]

  size_of-twice :
      (limit budget size : ℕ)
      → size_of limit budget (size_of limit budget size) ≡ size_of limit budget size
  size_of-twice limit budget size = ground arith

  -- The defaults, filled in twice, lead to the same chunk size.
  pub used_size-twice :
      (cfg : SplitterConfig) → used_size (ensure_defaults chars_for_token_limit cfg) ≡ used_size cfg
  used_size-twice cfg =
      let filled = ensure_defaults chars_for_token_limit cfg in
      let (limit, budget) = kept_fields cfg in
      used_size-is filled
      ∙ (ap (λ l. size_of l (budget_of filled) filled.chunk_size) limit
          ∙ (ap (λ b. size_of cfg.token_limit b filled.chunk_size) budget
              ∙ (ap (size_of cfg.token_limit (budget_of cfg)) (used_size-is cfg)
                  ∙ (size_of-twice cfg.token_limit (budget_of cfg) cfg.chunk_size
                      ∙ sym (used_size-is cfg)))))
