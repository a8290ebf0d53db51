-- ===== src/Core/Message.antt =====
-- crates/kn9t-core/src/message.rs, and the identifiers of ids.rs: the vocabulary of a transcript.
-- An identifier is the text that it wraps. A tool result holds a list of content blocks, so the
-- blocks and that list are declared together.
use kn9t.Prelude.{String, Bool, true, false, Option, List}

pub data Role : Type 0 where
  system user assistant tool : Role

unfoldable pub role_eq : Role → Role → Bool
role_eq system system = true
role_eq user user = true
role_eq assistant assistant = true
role_eq tool tool = true
role_eq _ _ = false

abbrev pub MsgId : Type 0
MsgId = String

abbrev pub CallId : Type 0
CallId = String

abbrev pub SessionId : Type 0
SessionId = String

mutual
  pub data Content : Type 0 where
    text : String → Content
    image : (sha256 mime : String) → Content
    tool_call : (id : CallId) (name args_json : String) → Content
    tool_result : (id : CallId) → Contents → (is_error : Bool) → Content
    thinking : (text : String) (signature : Option String) → Content

  pub data Contents : Type 0 where
    nil : Contents
    cons : Content → Contents → Contents

pub record Message : Type 0 where
  pub id : MsgId
  pub role : Role
  pub content : List Content
  pub silent : Bool
