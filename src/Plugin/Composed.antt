-- ===== src/Plugin/Composed.antt =====
-- crates/kn9t-plugin/src/composed.rs: `ComposedHookHost`, several plugins in the place of one. A plugin
-- is what it answers; its subprocess and its time limits are behind that. The working directory is
-- left out of the arguments.
pub mod Strictest
use kn9t.Prelude.{
  ℕ, String, Bool, true, false, Option, none, some, is_some, List, [], ◌∷◌, ◌++◌, ltb, ◌||◌,
  if◌then◌else◌,
}
use kn9t.Core.Message.{Content, Message}
use kn9t.Core.Model.{ModelRef, StopReason, Thinking, Tokens}
use kn9t.Core.Hook.{HookVeto, allow, ask, deny, replace, severity}

pub record Usage : Type 0 where
  pub tokens : Tokens
  pub model : ModelRef

pub record NextTurnPatch : Type 0 where
  pub model : Option ModelRef
  pub thinking : Option Thinking

-- `HookHost`: a plugin, or several of them.
pub record HookHost (Value : Type 0) : Type 0 where
  pub before_tool_call : String → Value → HookVeto Value
  pub after_tool_call : String → Value → List Content → List Content
  pub before_request : List Message → ModelRef → Option String → List Message
  pub should_stop_after_turn : StopReason → Usage → ℕ → Bool
  pub prepare_next_turn : StopReason → Usage → NextTurnPatch
  pub get_steering : List Message
  pub get_followup : List Message
  pub get_api_key : String → Option String

-- A later plugin's field overrides an earlier one's.
unfoldable pub override {ℓ} : {A : Type ℓ} → Option A → Option A → Option A
override earlier none = earlier
override earlier (some a) = some a

module _ {Value : Type 0} where
  unfoldable pub is_replace : HookVeto Value → Bool
  is_replace (replace args) = true
  is_replace v = false

  -- The loop of `before_tool_call`, with the strictest reply so far.
  unfoldable pub strictest_of :
      String → Value → HookVeto Value → List (HookHost Value) → HookVeto Value
  unfolding is_replace severity
  strictest_of tool args strictest [] = strictest
  strictest_of tool args strictest (plugin ∷ plugins) =
      let result = plugin.before_tool_call tool args in
      let rest =
        strictest_of tool args
          (if ltb (severity strictest) (severity result) then result else strictest) plugins in
      if is_replace result then result else rest

  unfoldable pub before_tool_call : List (HookHost Value) → String → Value → HookVeto Value
  unfolding strictest_of
  before_tool_call plugins tool args = strictest_of tool args allow plugins

  unfoldable pub after_tool_call :
      List (HookHost Value) → String → Value → List Content → List Content
  after_tool_call [] tool args result = result
  after_tool_call (plugin ∷ plugins) tool args result =
      after_tool_call plugins tool args (plugin.after_tool_call tool args result)

  unfoldable pub before_request :
      List (HookHost Value) → List Message → ModelRef → Option String → List Message
  before_request [] msgs model system = msgs
  before_request (plugin ∷ plugins) msgs model system =
      before_request plugins (plugin.before_request msgs model system) model system

  unfoldable pub should_stop_after_turn : List (HookHost Value) → StopReason → Usage → ℕ → Bool
  should_stop_after_turn [] reason usage turn = false
  should_stop_after_turn (plugin ∷ plugins) reason usage turn =
      let rest = should_stop_after_turn plugins reason usage turn in
      if plugin.should_stop_after_turn reason usage turn then true else rest

  unfoldable pub patch_of :
      StopReason → Usage → NextTurnPatch → List (HookHost Value) → NextTurnPatch
  unfolding override
  patch_of reason usage patch [] = patch
  patch_of reason usage patch (plugin ∷ plugins) =
      let p = plugin.prepare_next_turn reason usage in
      patch_of reason usage
        (record {
          model = override patch.model p.model;
          thinking = override patch.thinking p.thinking;
        })
        plugins

  unfoldable pub prepare_next_turn : List (HookHost Value) → StopReason → Usage → NextTurnPatch
  unfolding patch_of
  prepare_next_turn plugins reason usage =
      patch_of reason usage (record { model = none; thinking = none }) plugins

  unfoldable pub get_steering : List (HookHost Value) → List Message
  get_steering [] = []
  get_steering (plugin ∷ plugins) = plugin.get_steering ++ get_steering plugins

  unfoldable pub get_followup : List (HookHost Value) → List Message
  get_followup [] = []
  get_followup (plugin ∷ plugins) = plugin.get_followup ++ get_followup plugins

  unfoldable pub get_api_key : List (HookHost Value) → String → Option String
  get_api_key [] provider = none
  get_api_key (plugin ∷ plugins) provider =
      let rest = get_api_key plugins provider in
      elim (plugin.get_api_key provider) [ none ↦ rest | some key ↦ some key ]

  unfoldable pub compose : List (HookHost Value) → HookHost Value
  compose plugins = record {
    before_tool_call = before_tool_call plugins;
    after_tool_call = after_tool_call plugins;
    before_request = before_request plugins;
    should_stop_after_turn = should_stop_after_turn plugins;
    prepare_next_turn = prepare_next_turn plugins;
    get_steering = get_steering plugins;
    get_followup = get_followup plugins;
    get_api_key = get_api_key plugins;
  }
