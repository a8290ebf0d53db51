-- ===== src/Store/Project.antt =====
-- crates/kn9t-store/src/project.rs: the rows that a durable event stands for, how they are written,
-- and the references to blobs in a message's content. The JSON text of a list of content blocks
-- (`serde_json`) is the parameter `content_json`.
use Prim.Native.Char.{code}
use kn9t.Prelude.{
  ℕ, zero, String, Bool, true, false, ◌&&◌, ◌||◌, Option, none, some, List, [], ◌∷◌, leb, ◌==◌,
  str_eq, if◌then◌else◌, ℤ,
}
use kn9t.Prelude.Table.{Table}
use kn9t.Core.Message.{Role, Content, Message}
use kn9t.Core.Model.{Price, Tokens}
use kn9t.Core.Cost
use kn9t.Core.Event.{Event, UsageKind}
use kn9t.Store.Database.{
  Db, Blob, MessageRow, UsageRow, replace_message, replace_usage, delete_range, incr_refcount,
}

pub data Row : Type 0 where
  message_row : MessageRow → Row
  usage_row : UsageRow → Row
  compacted_row :
      (session_id : String) (seq replaced_start replaced_end : ℕ) (role content : String) → Row

unfoldable pub role_str : Role → String
role_str Role.system = "system"
role_str Role.user = "user"
role_str Role.assistant = "assistant"
role_str Role.tool = "tool"

unfoldable pub usage_kind_str : UsageKind → String
usage_kind_str UsageKind.main = "main"
usage_kind_str UsageKind.compaction = "compaction"
usage_kind_str UsageKind.subagent = "subagent"
usage_kind_str UsageKind.title = "title"

unfoldable pub is_zero : ℤ → Bool
is_zero (ℤ.pos zero) = true
is_zero _ = false

-- The cost that the event carries, or the cost of its tokens if it carries none.
unfoldable pub recorded_cost : Tokens → Price → ℤ → ℤ
unfolding is_zero
recorded_cost tokens price cost = if is_zero cost then Cost.cost_micros tokens price else cost

unfoldable pub usage_of :
    (session_id : String) (ts seq : ℕ) (provider model : String)
    → UsageKind
    → Tokens
    → Price
    → ℤ
    → Bool
    → UsageRow
unfolding usage_kind_str recorded_cost
usage_of sid ts seq provider model kind tokens price cost estimated = record {
  session_id = sid;
  seq = seq;
  ts = ts;
  provider = provider;
  model = model;
  kind = usage_kind_str kind;
  tokens = tokens;
  price = price;
  cost_micros = recorded_cost tokens price cost;
  estimated = estimated;
}

module _ (content_json : List Content → String) where
  unfoldable pub message_of : (session_id : String) (seq : ℕ) → Message → MessageRow
  unfolding role_str
  message_of sid seq msg = record {
    session_id = sid;
    seq = seq;
    role = role_str msg.role;
    content = content_json msg.content;
    silent = msg.silent;
  }

  unfoldable pub project : (session_id : String) (ts : ℕ) → Event → List Row
  unfolding message_of usage_of
  project sid ts (Event.message_appended seq msg) = message_row (message_of sid seq msg) ∷ []
  project sid ts (Event.usage_recorded seq provider model kind tokens price cost estimated) =
      usage_row (usage_of sid ts seq provider model kind tokens price cost estimated) ∷ []
  project sid ts (Event.compacted seq replaced summary) =
      compacted_row sid seq replaced.start replaced.end (role_str summary.role)
        (content_json summary.content)
      ∷ []
  project sid ts e = []

-- A summary is never silent.
unfoldable pub write_row : Db → Row → Db
unfolding replace_message replace_usage delete_range
write_row db (message_row row) = record db { messages = replace_message row db.messages }
write_row db (usage_row row) = record db { usage = replace_usage row db.usage }
write_row db (compacted_row sid seq start end role content) =
    let summary : MessageRow = record {
      session_id = sid;
      seq = seq;
      role = role;
      content = content;
      silent = false;
    } in
    record db { messages = replace_message summary (delete_range sid start end db.messages) }

unfoldable pub write_rows : Db → List Row → Db
unfolding write_row
write_rows db [] = db
write_rows db (row ∷ rows) = write_rows (write_row db row) rows

-- `char::is_ascii_hexdigit`
unfoldable pub is_ascii_hexdigit : ℕ → Bool
is_ascii_hexdigit c = (leb 48 c && leb c 57) || (leb 65 c && leb c 70) || (leb 97 c && leb c 102)

-- What follows the prefix.
unfoldable pub strip_prefix : (prefix s : String) → Option String
strip_prefix String.[] s = some s
strip_prefix (String.◌∷◌ p ps) String.[] = none
strip_prefix (String.◌∷◌ p ps) (String.◌∷◌ c s) =
    let rest = strip_prefix ps s in if code p == code c then rest else none

-- The run of hexadecimal digits at the front.
unfoldable pub hex_run : String → String
unfolding is_ascii_hexdigit
hex_run String.[] = ""
hex_run (String.◌∷◌ c s) =
    let rest = hex_run s in if is_ascii_hexdigit (code c) then String.◌∷◌ c rest else ""

-- Each place where the prefix stands is tried. The program goes on behind the digits that it has
-- found, where no place is left out: neither the prefix's own tail nor a digit begins with "s".
unfoldable pub extract_sha256_refs : String → List String
unfolding strip_prefix hex_run
extract_sha256_refs String.[] = []
extract_sha256_refs (String.◌∷◌ c s) =
    let more = extract_sha256_refs s in
    elim (strip_prefix "sha256:" (String.◌∷◌ c s)) [
      | none ↦ more
      | some rest ↦ if str_eq (hex_run rest) "" then more else hex_run rest ∷ more
    ]

unfoldable pub incr_all : Table Blob → List String → Table Blob
unfolding incr_refcount
incr_all blobs [] = blobs
incr_all blobs (hash ∷ hashes) = incr_all (incr_refcount blobs hash) hashes

unfoldable pub incr_blob_refs : Db → (content_json : String) → Db
unfolding incr_all extract_sha256_refs
incr_blob_refs db content = record db { blobs = incr_all db.blobs (extract_sha256_refs content) }
