-- ===== src/Watchdog/LastUse.antt =====
-- What `idle_seconds` counts from.
use mathlib.Core.List.{reverse-cons}
use shard_vpn.Prelude.{
  ℕ, ◌<◌, ◌≤◌, ◌≡◌, refl, ap, ◌∙◌, ◌⊎◌, inl, inr, Option, none, some, List, [], ◌∷◌, ◌++◌, reverse,
  arith, ltb, Bool-cases, All,
}
use shard_vpn.World.{Datapoint}
use shard_vpn.DateTime.{DateTime}
use shard_vpn.Watchdog.{seconds_since, first_busy, idle_seconds}

-- A bucket at or below the floor.
abbrev pub IsQuiet : ℕ → Datapoint → Type 0
IsQuiet floor p = p.1 ≤ floor

-- The last bucket above the floor is at this time.
pub record LastBusy (floor : ℕ) (ps : List Datapoint) (t : DateTime) : Type 0 where
  pub before : List Datapoint
  pub behind : List Datapoint
  pub bytes : ℕ
  pub place : ps ≡ before ++ ((t, bytes) ∷ behind)
  pub busy : floor < bytes
  pub quiet : All (IsQuiet floor) behind

-- The time of the last bucket above the floor, or of the first bucket if none is.
pub data LastUse (floor : ℕ) (ps : List Datapoint) (t : DateTime) : Type 0 where
  used : LastBusy floor ps t → LastUse floor ps t
  unused :
      (bytes : ℕ) (rest : List Datapoint)
      → ps ≡ (t, bytes) ∷ rest
      → All (IsQuiet floor) ps
      → LastUse floor ps t

abbrev or_else : Option DateTime → Option DateTime → Option DateTime
or_else (some t) r = some t
or_else none r = r

first_busy-append :
    (n : ℕ) (ps qs : List Datapoint)
    → first_busy n (ps ++ qs) ≡ or_else (first_busy n ps) (first_busy n qs)
unfolding first_busy
first_busy-append n [] qs = refl
first_busy-append n ((t, v) ∷ ps) qs = elim (Bool-cases (ltb n v)) [
  | inl busy ↦ rw busy
  | inr quiet ↦ rw quiet (first_busy-append n ps qs)
]

first_busy-snoc :
    (n : ℕ) (p : Datapoint) (ps : List Datapoint)
    → first_busy n (reverse (p ∷ ps)) ≡ or_else (first_busy n (reverse ps)) (first_busy n (p ∷ []))
first_busy-snoc n p ps =
    ap (first_busy n) (reverse-cons p ps) ∙ first_busy-append n (reverse ps) (p ∷ [])

-- From the end, the first busy bucket is the last one.
LastBusy-cases :
    (floor : ℕ) (ps : List Datapoint)
    → ((first_busy floor (reverse ps) ≡ none) × All (IsQuiet floor) ps)
      ⊎ ((t : DateTime) × (first_busy floor (reverse ps) ≡ some t) × LastBusy floor ps t)
unfolding first_busy
LastBusy-cases floor [] = inl (refl, tt)
LastBusy-cases floor ((t, v) ∷ ps) =
    let n = floor in
    let snoc = first_busy-snoc n (t, v) ps in
    elim (LastBusy-cases floor ps) [
      | inr (u, e, last) ↦ inr (
        u,
        snoc ∙ ap (λ x. or_else x (first_busy n ((t, v) ∷ []))) e,
        record {
          before = (t, v) ∷ last.before;
          behind = last.behind;
          bytes = last.bytes;
          place = ap (λ l. (t, v) ∷ l) last.place;
          busy = last.busy;
          quiet = last.quiet;
        },
      )
      | inl (e, quiet) ↦
          let tail = snoc ∙ ap (λ x. or_else x (first_busy n ((t, v) ∷ []))) e in
          elim (Bool-cases (ltb n v)) [
            | inl busy ↦ inr (
              t,
              tail ∙ rw (busy, first_busy),
              record {
                before = [];
                behind = ps;
                bytes = v;
                place = refl;
                busy = ground (arith, busy);
                quiet = quiet;
              },
            )
            | inr low ↦ inl (tail ∙ rw (low, first_busy), (ground (arith, low), quiet))
          ]
    ]

-- The idle time is the age of the last bucket above the floor, or of the first bucket if no bucket is
-- above it; it is unknown only without buckets.
pub idle_seconds-LastUse :
    (ps : List Datapoint) (now : DateTime) (floor : ℕ)
    → ((idle_seconds ps now floor ≡ none) × (ps ≡ []))
      ⊎ ((t : DateTime) × (idle_seconds ps now floor ≡ some (seconds_since now t))
          × LastUse floor ps t)
unfolding idle_seconds
idle_seconds-LastUse [] now floor = inl (refl, refl)
idle_seconds-LastUse ((t, v) ∷ ps) now floor = elim (LastBusy-cases floor ((t, v) ∷ ps)) [
  | inl (e, quiet) ↦ inr (t, rw (e, idle_seconds), unused v ps refl quiet)
  | inr (u, e, last) ↦ inr (u, rw (e, idle_seconds), used last)
]
