-- ===== src/Tests/ServerTests.antt =====
-- The lease on one session that two clients want, and the prelude of a stream that a publisher raced.
use text.Mathlib.TextLemmas.{head-eq_of_cons-eq, cons-append}
use Prim.Native.Char.{code}
use Prim.Native.String.{◌∷◌ as cons}
use kn9t.Prelude.{
  ℕ, ◌∙◌, ap, IsRising, ◌≡◌, ◌≢◌, ◌-◌, refl, true, false, some, String, List, [], ◌∷◌, arith,
  str_eq, eq_iff, ltb, ◌&&◌, map, ◌++◌,
}
use kn9t.Prelude.Table.{find}
use kn9t.Core.Event.{Event, title_changed, tools_toggled, seq_of}
use kn9t.Server.Lease.{
  Lease, LeaseMap, granted, busy, acquire, holds, touch, release, force_release, mint_holder,
  occupied,
}
use kn9t.Server.Lease.SingleWriter.{holds-acquire}
use kn9t.Server.Attach.{build_attach_prelude, sse_frame, partial_frames}
use kn9t.Server.Attach.Frames.{frames-build_attach_prelude, new_events}
use kn9t.Server.Attach.Continuity.{IsContinuous, seqs, build_attach_prelude-IsContinuous}

abbrev anns : Lease
anns = record { holder = "ann"; last_active = 5 }

abbrev taken : LeaseMap
taken = record { leases = ("s", anns) ∷ []; idle_timeout = 10; counter = 1 }

bob_takes : (acquire taken 7 "t" "s" true).0 ≡ granted "lease-2-t"
unfolding acquire find kn9t.Server.Lease.holder_name
bob_takes = refl

bob_waits : (acquire taken 7 "t" "s" false).0 ≡ busy
unfolding acquire find
bob_waits = refl

ann_touches : (touch taken 30 "s" "ann").0 ≡ true
unfolding touch find
ann_touches = refl

a_not_l : (s t : String) → cons "a" s ≢ cons "l" t
a_not_l s t same =
    let codes : 97 ≡ 108 = ap code (head-eq_of_cons-eq {x = "a"} {y = "l"} same) in
    absurd (ground (arith, codes))

-- No granted name begins with an "a".
ann_is_old : (c : ℕ) → ◌≢◌ {A = String} "ann" (kn9t.Server.Lease.holder_name c "t")
unfolding kn9t.Server.Lease.holder_name
ann_is_old c same = a_not_l "nn" _ (same ∙ cons-append "l" "ease-" _)

holds-acquire_example :
    ((holds (acquire taken 7 "t" "s" true).1 9 "s" "lease-2-t").0
      ≡ (str_eq "lease-2-t" "lease-2-t" && ltb (9 - 7) 10))
    × ((holds (acquire taken 7 "t" "s" true).1 9 "s" "ann").0 ≡ false)
holds-acquire_example =
    holds-acquire taken 7 9 "t" "s" "lease-2-t" "lease-2-t" "ann" true bob_takes ann_is_old

ann_holds : find taken.leases "s" ≡ some anns
unfolding find
ann_holds = refl

ann_not_bob : ◌≢◌ {A = String} "ann" "bob"
ann_not_bob = ground (arith, eq_iff "ann" "bob")

s_not_r : ◌≢◌ {A = String} "s" "r"
s_not_r = ground (arith, eq_iff "s" "r")

abbrev shown : Event → String
shown e = "{}"

abbrev replayed : List Event
replayed = tools_toggled 6 [] ∷ tools_toggled 7 [] ∷ []

-- The ring dropped number 9.
abbrev raced : List Event
raced = tools_toggled 7 [] ∷ title_changed "new" ∷ tools_toggled 8 [] ∷ tools_toggled 10 [] ∷ []

frames-build_attach_prelude_example :
    (build_attach_prelude shown replayed 7 (some "half") raced).frames
    ≡ map (sse_frame shown) replayed
      ++ (partial_frames shown (some "half") ++ map (sse_frame shown) (new_events 7 raced))
frames-build_attach_prelude_example =
    frames-build_attach_prelude shown replayed 7 (some "half") raced

gap_seen : (build_attach_prelude shown replayed 7 (some "half") raced).gap_detected ≡ true
unfolding build_attach_prelude seq_of
gap_seen = refl

raced-IsRising : IsRising (seqs (new_events 7 raced))
unfolding seq_of
raced-IsRising = ground arith

build_attach_prelude-IsContinuous_example :
    IsContinuous 7
      (build_attach_prelude shown replayed 7 (some "half") raced).contiguous_through
      (build_attach_prelude shown replayed 7 (some "half") raced).gap_detected
      (seqs (new_events 7 raced))
build_attach_prelude-IsContinuous_example =
    build_attach_prelude-IsContinuous shown replayed 7 (some "half") raced raced-IsRising
