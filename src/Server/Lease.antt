-- ===== src/Server/Lease.antt =====
-- crates/kn9t-server/src/lease.rs: the single-writer lease. Each method holds the map's mutex, so it
-- is one step on the state. The clock is an argument: `now` is the `Instant` that the method reads,
-- in nanoseconds, and `duration_since` is 0 if the other instant is later. The random part of a
-- token (`auth::generate_token`) is an argument too. The counter is a u64 that counts grants, and
-- is not wrapped here.
pub mod SingleWriter
pub mod Frame
use Prim.Native.Char.{Char}
use Prim.Native.String.{[] as empty, ◌∷◌ as cons, ◌++◌ as append}
use kn9t.Prelude.{
  ℕ, zero, suc, ◌+◌, ◌-◌, ◌*◌, ◌/◌, ◌%◌, String, Bool, true, false, not, ◌&&◌, Option, none, some,
  [], ◌∷◌, ltb, leb, str_eq, if◌then◌else◌,
}
use kn9t.Prelude.Table.{Table, find, put, remove, any_value}

pub record Lease : Type 0 where
  pub holder : String
  pub last_active : ℕ

pub record LeaseMap : Type 0 where
  pub leases : Table Lease
  pub idle_timeout : ℕ
  pub counter : ℕ

pub data AcquireResult : Type 0 where
  granted : String → AcquireResult
  busy : AcquireResult

-- 5 minutes.
abbrev pub default_lease_idle : ℕ
default_lease_idle = 5 * 60 * 1_000_000_000

unfoldable pub new : ℕ → LeaseMap
new idle_timeout = record { leases = []; idle_timeout = idle_timeout; counter = 0 }

unfoldable pub digit : ℕ → String
digit zero = "0"
digit (suc zero) = "1"
digit (suc (suc zero)) = "2"
digit (suc (suc (suc zero))) = "3"
digit (suc (suc (suc (suc zero)))) = "4"
digit (suc (suc (suc (suc (suc zero))))) = "5"
digit (suc (suc (suc (suc (suc (suc zero)))))) = "6"
digit (suc (suc (suc (suc (suc (suc (suc zero))))))) = "7"
digit (suc (suc (suc (suc (suc (suc (suc (suc zero)))))))) = "8"
digit n = "9"

-- The decimal numeral of `n`, in front of `rest`. A u64 has at most 20 digits.
unfoldable pub decimal : ℕ → ℕ → String → String
unfolding digit
decimal zero n rest = rest
decimal (suc fuel) n rest =
    let here = append (digit (n % 10)) rest in
    let more = decimal fuel (n / 10) here in if ltb n 10 then here else more

-- `format!("lease-{}-{}", c, token)`
unfoldable pub holder_name : ℕ → String → String
unfolding decimal
holder_name c token = append "lease-" (decimal 20 c (append "-" token))

unfoldable pub mint_holder : LeaseMap → String → String × LeaseMap
mint_holder m token = let c = m.counter + 1 in (holder_name c token, record m { counter = c })

unfoldable pub is_live : LeaseMap → ℕ → Lease → Bool
is_live m now l = ltb (now - l.last_active) m.idle_timeout

unfoldable pub occupied : LeaseMap → ℕ → Option Lease → Bool
unfolding is_live
occupied m now none = false
occupied m now (some l) = is_live m now l

unfoldable pub acquire :
    LeaseMap → (now : ℕ) → (token session : String) → (takeover : Bool) → AcquireResult × LeaseMap
unfolding occupied mint_holder
acquire m now token session takeover =
    let (holder, m') = mint_holder m token in
    if occupied m now (find m.leases session) && not takeover then (busy, m) else (
      granted holder,
      record m' { leases = put m'.leases session (record { holder = holder; last_active = now }) },
    )

-- The lease of `session`, if `holder` is its holder.
unfoldable pub held_by : LeaseMap → (session holder : String) → Option Lease
held_by m session holder = elim (find m.leases session) [
  | none ↦ none
  | some l ↦ if str_eq l.holder holder then some l else none
]

unfoldable pub holds : LeaseMap → (now : ℕ) → (session holder : String) → Bool × LeaseMap
unfolding held_by
holds m now session holder = elim (held_by m session holder) [
  | none ↦ (false, m)
  | some l ↦
      if leb m.idle_timeout (now - l.last_active)
      then (false, record m { leases = remove m.leases session })
      else (true, record m { leases = put m.leases session (record l { last_active = now }) })
]

unfoldable pub touch : LeaseMap → (now : ℕ) → (session holder : String) → Bool × LeaseMap
unfolding held_by
touch m now session holder = elim (held_by m session holder) [
  | none ↦ (false, m)
  | some l ↦ (true, record m { leases = put m.leases session (record l { last_active = now }) })
]

unfoldable pub release : LeaseMap → (session holder : String) → Bool × LeaseMap
unfolding held_by
release m session holder = elim (held_by m session holder) [
  | none ↦ (false, m)
  | some _ ↦ (true, record m { leases = remove m.leases session })
]

unfoldable pub force_release : LeaseMap → (session holder : String) → LeaseMap
force_release m session holder = elim (find m.leases session) [
  | none ↦ m
  | some l ↦ if str_eq l.holder holder then record m { leases = remove m.leases session } else m
]

unfoldable pub any_active : LeaseMap → (now : ℕ) → Bool
unfolding is_live
any_active m now = any_value (is_live m now) m.leases
