-- ===== src/Store/Session/Atomic.antt =====
-- What a failed append leaves behind.
use kn9t.Prelude.{ℕ, ◌≡◌, String, true, false, none, is_some, List, inl, ◌≢◌, arith}
use kn9t.Prelude.Table.{find}
use kn9t.Core.Message.{SessionId, Content}
use kn9t.Core.Event.{Event, seq_of}
use kn9t.Store.Database.{Connection, begin, rollback}
use kn9t.Store.Session.{StoreErr, Refusals, no_session, begin_failed, commit_failed, append}

module _ (to_json : Event → String) (content_json : List Content → String) where
  -- Outside a transaction, a call that fails leaves the connection as it was, and no observer hears
  -- of it: unless the session is missing or the commit is refused, where the transaction stays open.
  pub append-atomic :
      (refuses : Refusals) (c : Connection) (session : SessionId) (ts : ℕ) (event : Event)
      (e : StoreErr)
      → c.saved ≡ none
      → (append to_json content_json refuses c session ts event).result ≡ inl e
      → e ≢ no_session
      → e ≢ commit_failed
      → ((append to_json content_json refuses c session ts event).conn ≡ c)
        × ((append to_json content_json refuses c session ts event).echo ≡ none)
  unfolding append begin rollback
  append-atomic refuses c session ts event e idle failed other1 other2 =
      ground (arith, idle, failed)

  -- An append to a session that is missing, such as one that was deleted during its turn, fails and
  -- leaves its transaction open; whatever is appended next, to whichever session, fails then at its
  -- BEGIN, and leaves the connection in that state.
  pub missing_session_wedges :
      (refuses refuses' : Refusals) (c : Connection) (session session' : SessionId) (ts ts' : ℕ)
      (event event' : Event)
      → c.saved ≡ none
      → find c.db.sessions session ≡ none
      → refuses.at_begin ≡ false
      → is_some (seq_of event) ≡ true
      → is_some (seq_of event') ≡ true
      → ((append to_json content_json refuses c session ts event).result ≡ inl no_session)
        × (append to_json content_json refuses'
              (append to_json content_json refuses c session ts event).conn
              session'
              ts'
              event'
            ≡ record {
              result = inl begin_failed;
              conn = (append to_json content_json refuses c session ts event).conn;
              echo = none;
            })
  unfolding append begin
  missing_session_wedges refuses refuses' c session session' ts ts' event event' idle gone can d
        d' =
      (ground (arith, idle, gone, can, d), ground (arith, idle, gone, can, d, d'))
