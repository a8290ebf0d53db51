-- ===== src/Core/Hook.antt =====
-- crates/kn9t-core/src/hook.rs: what a plugin may say of a tool call. A JSON value (`serde_json`) is an
-- element of the type `Value`.
use kn9t.Prelude.{ℕ, String}

pub data HookVeto (Value : Type 0) : Type 0 where
  allow : HookVeto Value
  ask : (reason : String) → HookVeto Value
  deny : (reason : String) → HookVeto Value
  replace : (args : Value) → HookVeto Value

module _ {Value : Type 0} where
  unfoldable pub severity : HookVeto Value → ℕ
  severity allow = 0
  severity (replace args) = 0
  severity (ask reason) = 1
  severity (deny reason) = 2
