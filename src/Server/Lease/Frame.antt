-- ===== src/Server/Lease/Frame.antt =====
-- What the lease operations leave alone, and how a lease is renewed and lost.
use kn9t.Prelude.{
  ℕ, ◌-◌, ◌≤◌, String, ◌≡◌, ◌≢◌, Bool, true, false, inl, inr, none, some, ltb, str_eq, eq_iff,
  eq_refl, arith, Option-cases,
}
use kn9t.Prelude.Table.{find, find-put, find-remove}
use kn9t.Server.Lease.{
  Lease, LeaseMap, granted, mint_holder, acquire, holds, touch, release, force_release,
}

-- A token that is not the current holder's is refused by every method, and changes nothing.
pub stranger_refused :
    (m : LeaseMap) (now : ℕ) (session presented : String) (l : Lease)
    → find m.leases session ≡ some l
    → l.holder ≢ presented
    → (holds m now session presented ≡ (false, m))
      × (touch m now session presented ≡ (false, m))
      × (release m session presented ≡ (false, m))
      × (force_release m session presented ≡ m)
unfolding holds touch release force_release
stranger_refused m now session presented l held other =
    ground (arith, held, other, eq_iff l.holder presented)

str_ne : (a b : String) → a ≢ b → str_eq a b ≡ false
str_ne a b h = ground (arith, eq_iff a b)

module _ (m : LeaseMap) (now : ℕ) (session other : String) (apart : session ≢ other) where
  acquire_other :
      (token : String) (takeover : Bool)
      → find (acquire m now token session takeover).1.leases other ≡ find m.leases other
  unfolding acquire
  acquire_other token takeover = ground (
    arith,
    str_ne session other apart,
    find-put m.leases session other
        (record { holder = (mint_holder m token).0; last_active = now }),
  )

  holds_other :
      (presented : String)
      → find (holds m now session presented).1.leases other ≡ find m.leases other
  unfolding holds
  holds_other presented = elim (Option-cases (find m.leases session)) [
    | inl free ↦ ground (arith, free)
    | inr (l, e) ↦ ground (
      arith,
      e,
      str_ne session other apart,
      find-put m.leases session other (record l { last_active = now }),
      find-remove m.leases session other,
    )
  ]

  touch_other :
      (presented : String)
      → find (touch m now session presented).1.leases other ≡ find m.leases other
  unfolding touch
  touch_other presented = elim (Option-cases (find m.leases session)) [
    | inl free ↦ ground (arith, free)
    | inr (l, e) ↦ ground (
      arith,
      e,
      str_ne session other apart,
      find-put m.leases session other (record l { last_active = now }),
    )
  ]

  release_other :
      (presented : String)
      → (find (release m session presented).1.leases other ≡ find m.leases other)
        × (find (force_release m session presented).leases other ≡ find m.leases other)
  unfolding release force_release
  release_other presented =
      ground (arith, str_ne session other apart, find-remove m.leases session other)

-- No method that is called for one session changes the lease of another.
pub other_sessions_kept :
    (m : LeaseMap) (now : ℕ) (session other token presented : String) (takeover : Bool)
    → session ≢ other
    → (find (acquire m now token session takeover).1.leases other ≡ find m.leases other)
      × (find (holds m now session presented).1.leases other ≡ find m.leases other)
      × (find (touch m now session presented).1.leases other ≡ find m.leases other)
      × (find (release m session presented).1.leases other ≡ find m.leases other)
      × (find (force_release m session presented).leases other ≡ find m.leases other)
other_sessions_kept m now session other token presented takeover apart = (
  acquire_other m now session other apart token takeover,
  holds_other m now session other apart presented,
  touch_other m now session other apart presented,
  (release_other m now session other apart presented).0,
  (release_other m now session other apart presented).1,
)

-- A touch by the holder renews the lease even if it had gone idle: the holder is accepted again
-- for a whole idle period from then.
pub holds-touch :
    (m : LeaseMap) (now later : ℕ) (session holder : String)
    → (touch m now session holder).0 ≡ true
    → (holds (touch m now session holder).1 later session holder).0
      ≡ ltb (later - now) m.idle_timeout
unfolding touch holds
holds-touch m now later session holder h = elim (Option-cases (find m.leases session)) [
  | inl free ↦ absurd (ground (arith, free, h))
  | inr (l, e) ↦ ground (
    arith,
    e,
    h,
    eq_refl session,
    find-put m.leases session session (record l { last_active = now }),
  )
]

-- A holder that was idle for the whole timeout is refused, its lease is dropped, and the next
-- attempt, by anybody and without takeover, is granted.
pub idle_holder_loses :
    (m : LeaseMap) (now later : ℕ) (token session : String) (l : Lease)
    → find m.leases session ≡ some l
    → m.idle_timeout ≤ now - l.last_active
    → ((holds m now session l.holder).0 ≡ false)
      × (find (holds m now session l.holder).1.leases session ≡ none)
      × ((acquire (holds m now session l.holder).1 later token session false).0
          ≡ granted (mint_holder m token).0)
unfolding holds acquire
idle_holder_loses m now later token session l held idle =
    ground (arith, held, eq_refl l.holder, eq_refl session, find-remove m.leases session session)
