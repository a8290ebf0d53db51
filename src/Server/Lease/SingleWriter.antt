-- ===== src/Server/Lease/SingleWriter.antt =====
-- At most one token writes to a session, and a grant decides which.
use kn9t.Prelude.{
  ◌+◌, ◌≢◌, ◌∙◌, sym, ℕ, ◌-◌, ◌<◌, String, ◌≡◌, Bool, true, false, not, ◌&&◌, ◌⊎◌, inl, inr, some,
  ltb, str_eq, eq_iff, eq_refl, arith, Bool-cases, Option-cases,
}
use kn9t.Prelude.Table.{find, find-put}
use kn9t.Server.Lease.{
  Lease, LeaseMap, granted, holder_name, busy, mint_holder, occupied, acquire, holds,
}

-- In one state at one time, two tokens that are both accepted for a session are the same.
pub one_writer :
    (m : LeaseMap) (now : ℕ) (session a b : String)
    → (holds m now session a).0 ≡ true
    → (holds m now session b).0 ≡ true
    → a ≡ b
unfolding holds
one_writer m now session a b ha hb = elim (Option-cases (find m.leases session)) [
  | inl free ↦ absurd (ground (arith, free))
  | inr (l, e) ↦ ground (arith, e, eq_iff l.holder a, eq_iff l.holder b)
]

-- The granted name is the new one.
minted :
    (m : LeaseMap) (now : ℕ) (token session holder : String) (takeover : Bool)
    → (acquire m now token session takeover).0 ≡ granted holder
    → holder ≡ holder_name (m.counter + 1) token
unfolding acquire mint_holder
minted m now token session holder takeover h =
    elim (Bool-cases (occupied m now (find m.leases session) && not takeover)) [
      | inl refused ↦ absurd (ground (arith, refused, h))
      | inr free ↦ ground (arith, free, h)
    ]

holds-granted :
    (m : LeaseMap) (now later : ℕ) (token session holder presented : String) (takeover : Bool)
    → (acquire m now token session takeover).0 ≡ granted holder
    → (holds (acquire m now token session takeover).1 later session presented).0
      ≡ (str_eq holder presented && ltb (later - now) m.idle_timeout)
unfolding acquire holds
holds-granted m now later token session holder presented takeover h =
    elim (Bool-cases (occupied m now (find m.leases session) && not takeover)) [
      | inl refused ↦ absurd (ground (arith, refused, h))
      | inr free ↦ ground (
        arith,
        free,
        h,
        eq_refl session,
        find-put m.leases session session (record { holder = holder; last_active = now }),
      )
    ]

-- After a grant the granted token alone is accepted, and as long as the lease is not idle. So if the
-- random part is new, that is, no name with it is the name of a former holder, then the former holder
-- is refused, whether its lease was idle or was taken over.
pub holds-acquire :
    (m : LeaseMap) (now later : ℕ) (token session holder presented former : String)
    (takeover : Bool)
    → (acquire m now token session takeover).0 ≡ granted holder
    → ((c : ℕ) → former ≢ holder_name c token)
    → ((holds (acquire m now token session takeover).1 later session presented).0
        ≡ (str_eq holder presented && ltb (later - now) m.idle_timeout))
      × ((holds (acquire m now token session takeover).1 later session former).0 ≡ false)
holds-acquire m now later token session holder presented former takeover h new =
    let name = minted m now token session holder takeover h in
    (
      holds-granted m now later token session holder presented takeover h,
      holds-granted m now later token session holder former takeover h
          ∙ (elim (Bool-cases (str_eq holder former)) [
            | inl same ↦ absurd (new (m.counter + 1) (sym ((eq_iff holder former).0 same) ∙ name))
            | inr differs ↦ ground (arith, differs)
          ]),
    )

-- An attempt without takeover is refused exactly while a lease on the session is live, and then
-- nothing changes; with takeover it is always granted.
pub acquire-busy_iff :
    (m : LeaseMap) (now : ℕ) (token session : String) (takeover : Bool)
    → ((acquire m now token session takeover ≡ (busy, m))
        × (takeover ≡ false)
        × ((l : Lease) × (find m.leases session ≡ some l) × (now - l.last_active < m.idle_timeout)))
      ⊎ (((acquire m now token session takeover).0 ≡ granted (mint_holder m token).0)
          × ((takeover ≡ true) ⊎ (occupied m now (find m.leases session) ≡ false)))
unfolding acquire
acquire-busy_iff m now token session takeover = ground arith
