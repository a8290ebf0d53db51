-- ===== src/Store/Fork/Wedged.antt =====
-- What a fork that fails leaves behind (crates/kn9t-store/src/fork.rs).
use kn9t.Prelude.{
  Bool, false, ℕ, ◌≡◌, refl, sym, ap, ◌∙◌, String, true, Option, none, some, is_some, List, arith,
}
use kn9t.Core.Message.{SessionId, Content}
use kn9t.Core.Model.{ModelRef}
use kn9t.Core.Event.{Event, seq_of}
use kn9t.Store.Database.{Db, Connection, begin}
use kn9t.Store.Session.{Refusals, append, fail, begin_failed}
use kn9t.Store.Fork.{
  ForkErr, begin_fork, ForkRequest, or_stop, fork_begin, ended, copied, fork_session,
  fork_session_empty,
}

ended-saved :
    (c : Connection) (x : Option ForkErr × Db) (e : ForkErr)
    → (ended c x).0 ≡ some e
    → (ended c x).1.saved ≡ c.saved
unfolding ended
ended-saved c (some e', db) e h = refl
ended-saved c (none, db) e h = absurd (ground (arith, h))

module _ (to_json : Event → String) (of_json : String → Option Event)
    (content_json : List Content → String) (model_json : ModelRef → String)
    (model_of_json : String → Option ModelRef) where
  -- A fork that fails behind a BEGIN that SQLite has taken, because its origin or a model is missing, its
  -- name or a number is taken, or a payload cannot be read, leaves its
  -- transaction open, so that the next fork, with events or empty, and the next append of a durable
  -- event, to whichever session, fail at their BEGIN and change nothing. A fork whose BEGIN is refused
  -- changes nothing.
  pub fork_session_wedges :
      (c : Connection) (r : ForkRequest) (e : ForkErr)
      → c.saved ≡ none
      → let after = fork_session to_json of_json content_json model_json model_of_json false c r in
        after.0 ≡ some e
        → (after.1.saved ≡ some c.db)
          × ((refused : Bool) (r' : ForkRequest)
              → (fork_session to_json of_json content_json model_json model_of_json refused after.1
                    r'
                  ≡ (some begin_fork, after.1))
                × (fork_session_empty to_json of_json content_json model_json model_of_json refused
                      after.1 r'
                    ≡ (some begin_fork, after.1)))
          × ((refuses : Refusals) (session : SessionId) (ts : ℕ) (event : Event)
              → is_some (seq_of event) ≡ true
              → append to_json content_json refuses after.1 session ts event
                ≡ fail begin_failed after.1)
          × (fork_session to_json of_json content_json model_json model_of_json true c r
              ≡ (some begin_fork, c))
  unfolding fork_session fork_session_empty begin append
  fork_session_wedges c r e outside h =
      let after = fork_session to_json of_json content_json model_json model_of_json false c r in
      let begun : Connection = record { db = c.db; saved = some c.db } in
      let body =
        or_stop (fork_begin to_json model_json model_of_json c.db r)
          (copied to_json of_json content_json model_json model_of_json r) in
      let same : after ≡ ended begun body = ground (arith, outside) in
      let open_still : after.1.saved ≡ some c.db =
        ap (λ (x : Option ForkErr × Connection). x.1.saved) same
        ∙ ended-saved begun body e (ap (λ (x : Option ForkErr × Connection). x.0) (sym same) ∙ h) in
      (
        open_still,
        λ refused r'. (ground (arith, open_still), ground (arith, open_still)),
        λ refuses session ts event durable. ground (arith, open_still, durable),
        refl,
      )
