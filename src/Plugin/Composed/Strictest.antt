-- ===== src/Plugin/Composed/Strictest.antt =====
-- Which verdict several plugins give on a tool call.
use kn9t.Prelude.{ℕ, max, ◌≡◌, String, false, List, [], ◌∷◌, arith, All, ◌++◌}
use kn9t.Core.Hook.{HookVeto, allow, replace, severity}
use kn9t.Plugin.Composed.{HookHost, is_replace, strictest_of, before_tool_call, compose}

module _ {Value : Type 0} (tool : String) (args : Value) where
  abbrev pub verdict : HookHost Value → HookVeto Value
  verdict plugin = plugin.before_tool_call tool args

  -- The greatest severity of the replies, and 0 of none.
  abbrev pub worst : List (HookHost Value) → ℕ
  worst [] = 0
  worst (plugin ∷ plugins) = max (severity (verdict plugin)) (worst plugins)

  abbrev pub HasNoReplace : List (HookHost Value) → Type 0
  HasNoReplace = All (λ plugin. is_replace (verdict plugin) ≡ false)

  severity-strictest_of :
      (strictest : HookVeto Value) (plugins : List (HookHost Value))
      → HasNoReplace plugins
      → severity (strictest_of tool args strictest plugins)
        ≡ max (severity strictest) (worst plugins)
  unfolding strictest_of
  severity-strictest_of strictest [] h = omega arith
  severity-strictest_of strictest (plugin ∷ plugins) (h, hs) = ground (
    arith,
    h,
    severity-strictest_of strictest plugins hs,
    severity-strictest_of (verdict plugin) plugins hs,
  )

  strictest_of-replace :
      (strictest : HookVeto Value) (before after : List (HookHost Value)) (plugin : HookHost Value)
      (new_args : Value)
      → HasNoReplace before
      → verdict plugin ≡ replace new_args
      → strictest_of tool args strictest (before ++ plugin ∷ after) ≡ replace new_args
  unfolding strictest_of
  strictest_of-replace strictest [] after plugin new_args h e = ground (arith, e)
  strictest_of-replace strictest (p ∷ before) after plugin new_args (h, hs) e = ground (
    arith,
    h,
    strictest_of-replace strictest before after plugin new_args hs e,
    strictest_of-replace (verdict p) before after plugin new_args hs e,
  )

-- If no plugin rewrites the arguments, the strictest reply decides, in whatever order the plugins are
-- asked: the verdict is as severe as the severest of the replies.
pub severity-before_tool_call :
    {Value : Type 0} (plugins : List (HookHost Value)) (tool : String) (args : Value)
    → HasNoReplace tool args plugins
    → severity ((compose plugins).before_tool_call tool args) ≡ worst tool args plugins
unfolding compose before_tool_call
severity-before_tool_call plugins tool args h =
    ground (arith, severity-strictest_of tool args allow plugins h)

-- The first plugin that rewrites the arguments decides, whatever the plugins before it and behind it
-- reply, denials included.
pub before_tool_call-replace :
    {Value : Type 0} (before after : List (HookHost Value)) (plugin : HookHost Value)
    (tool : String) (args new_args : Value)
    → HasNoReplace tool args before
    → plugin.before_tool_call tool args ≡ replace new_args
    → (compose (before ++ plugin ∷ after)).before_tool_call tool args ≡ replace new_args
unfolding compose before_tool_call
before_tool_call-replace before after plugin tool args new_args h e =
    strictest_of-replace tool args allow before after plugin new_args h e
