-- ===== src/Core/Model.antt =====
-- crates/kn9t-core/src/model.rs, usage.rs and the cache modes of cache.rs.
-- `ApprovalId`s, token counts and limits are unsigned words, kept as ℕ; prices are i64.
use kn9t.Prelude.{ℕ, String, Bool, ℤ}

pub record ModelRef : Type 0 where
  pub provider : String
  pub id : String

pub record Price : Type 0 where
  pub input : ℤ
  pub output : ℤ
  pub cache_read : ℤ
  pub cache_write : ℤ

pub record Tokens : Type 0 where
  pub input : ℕ
  pub output : ℕ
  pub cache_read : ℕ
  pub cache_write : ℕ
  pub reasoning : ℕ

pub data StopReason : Type 0 where
  stop tool_use length aborted refusal : StopReason

pub data Effort : Type 0 where
  low medium high : Effort

pub data Thinking : Type 0 where
  off : Thinking
  effort : Effort → Thinking
  budget : ℕ → Thinking

pub data ThinkingReplay : Type 0 where
  verbatim strip : ThinkingReplay

pub record Quirks : Type 0 where
  pub thinking_replay : ThinkingReplay

pub data CacheMode : Type 0 where
  explicit : (max_breakpoints min_tokens : ℕ) → CacheMode
  automatic : CacheMode
  none : CacheMode

pub record ModelSpec : Type 0 where
  pub model_ref : ModelRef
  pub api_id : String
  pub ctx_window : ℕ
  pub max_out : ℕ
  pub thinking : Thinking
  pub price : Price
  pub cache : CacheMode
  pub streaming : Bool
  pub quirks : Quirks
