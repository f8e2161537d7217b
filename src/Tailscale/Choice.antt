-- ===== src/Tailscale/Choice.antt =====
-- Which device `find_device` takes for the exit node.
use shard_vpn.Prelude.{
  ◌≤◌, ◌≡◌, refl, ap, subst, ◌∙◌, ◌⊎◌, inl, inr, Text, true, false, Option, none, some, List, [],
  ◌∷◌, ◌++◌, arith, length, Bool-cases, All, if◌then◌else◌,
}
use shard_vpn.Python.{ok, Outcome-cases}
use shard_vpn.Python.Json.{Json}
use shard_vpn.Tailscale.{
  has_tag, tagged_devices, has_hostname, first_named, only, choose, devices_of, select_device,
}

-- The device has another name.
abbrev pub IsOther : Text → Json → Type 0
IsOther hostname d = has_hostname hostname d ≡ false

-- The first device of the name.
pub record FirstNamed (hostname : Text) (ds : List Json) (d : Json) : Type 0 where
  pub before : List Json
  pub behind : List Json
  pub place : ds ≡ before ++ (d ∷ behind)
  pub others : All (IsOther hostname) before
  pub named : has_hostname hostname d ≡ true

-- The choice among the devices with the tag. A name is only asked for if it is there and not empty.
pub data Chosen (tagged : List Json) : Option Text → Option Json → Type 0 where
  absent : (hostname : Option Text) → tagged ≡ [] → Chosen tagged hostname none
  unasked : (d : Json) (rest : List Json) → tagged ≡ d ∷ rest → Chosen tagged none (some d)
  unnamed : (d : Json) (rest : List Json) → tagged ≡ d ∷ rest → Chosen tagged (some []) (some d)
  named :
      (hostname : Text) (d : Json)
      → FirstNamed hostname tagged d
      → Chosen tagged (some hostname) (some d)
  alone :
      (hostname : Text) (d : Json)
      → tagged ≡ d ∷ []
      → IsOther hostname d
      → Chosen tagged (some hostname) (some d)
  ambiguous :
      (hostname : Text)
      → All (IsOther hostname) tagged
      → 2 ≤ length tagged
      → Chosen tagged (some hostname) none

FirstNamed-cases :
    (hostname : Text) (ds : List Json)
    → ((first_named hostname ds ≡ none) × All (IsOther hostname) ds)
      ⊎ ((d : Json) × (first_named hostname ds ≡ some d) × FirstNamed hostname ds d)
unfolding first_named
FirstNamed-cases hostname [] = inl (refl, tt)
FirstNamed-cases hostname (d ∷ ds) = elim (Bool-cases (has_hostname hostname d)) [
  | inl match ↦ inr (
    d,
    rw (match, first_named),
    record { before = []; behind = ds; place = refl; others = tt; named = match },
  )
  | inr other ↦ elim (FirstNamed-cases hostname ds) [
    | inl (e, rest) ↦ inl (rw (other, first_named) e, (other, rest))
    | inr (f, e, first) ↦ inr (
      f,
      rw (other, first_named) e,
      record {
        before = d ∷ first.before;
        behind = first.behind;
        place = ap (λ l. d ∷ l) first.place;
        others = (other, first.others);
        named = first.named;
      },
    )
  ]
]

choose-Chosen :
    (hostname : Option Text) (tagged : List Json) → Chosen tagged hostname (choose hostname tagged)
unfolding choose only
choose-Chosen hostname [] = absent hostname refl
choose-Chosen none (d ∷ ds) = unasked d ds refl
choose-Chosen (some []) (d ∷ ds) = unnamed d ds refl
choose-Chosen (some (c ∷ h)) (d ∷ []) = elim (FirstNamed-cases (c ∷ h) (d ∷ [])) [
  | inl (e, others) ↦ rw (e, choose) (alone (c ∷ h) d refl others.0)
  | inr (f, e, first) ↦ rw (e, choose) (named (c ∷ h) f first)
]
choose-Chosen (some (c ∷ h)) (d ∷ d' ∷ ds) = elim (FirstNamed-cases (c ∷ h) (d ∷ d' ∷ ds)) [
  | inl (e, others) ↦ rw (e, choose) (ambiguous (c ∷ h) others (omega arith))
  | inr (f, e, first) ↦ rw (e, choose) (named (c ∷ h) f first)
]

-- Every device of the list carries the tag.
abbrev pub AllTagged : Text → List Json → Type 0
AllTagged tag = All (λ d. has_tag tag d ≡ ok true)

tagged_devices-AllTagged :
    (tag : Text) (ds tagged : List Json) → tagged_devices tag ds ≡ ok tagged → AllTagged tag tagged
unfolding tagged_devices
tagged_devices-AllTagged tag [] tagged h =
    let empty : [] ≡ tagged = cc in subst (AllTagged tag) empty tt
tagged_devices-AllTagged tag (d ∷ ds) tagged h = elim (Outcome-cases (has_tag tag d)) [
  | inr (x, e) ↦ absurd (cc (rw (e, tagged_devices) at h))
  | inl (b, e) ↦ elim (Outcome-cases (tagged_devices tag ds)) [
    | inr (x, others) ↦ absurd (cc (rw (e, others, tagged_devices) at h))
    | inl (rest, others) ↦
        let ih = tagged_devices-AllTagged tag ds rest others in
        let joined : (if b then d ∷ rest else rest) ≡ tagged =
          cc (rw (e, others, tagged_devices) at h) in
        elim (Bool-cases b) [
          | inl has ↦
              let list : d ∷ rest ≡ tagged = rw has at joined in
              subst (AllTagged tag) list (e ∙ ap ok has, ih)
          | inr lacks ↦
              let list : rest ≡ tagged = rw lacks at joined in subst (AllTagged tag) list ih
        ]
  ]
]

-- The device that is reported as the exit node carries the tag; it is the first with the host name, or
-- the only one with the tag, or the first if no host name is given. If several carry the tag and none
-- has the host name, none is reported.
pub select_device-Chosen :
    (tag : Text) (hostname : Option Text) (response : Json) (r : Option Json)
    → select_device tag hostname response ≡ ok r
    → (ds : List Json) × (tagged : List Json) × (devices_of response ≡ ok ds)
      × (tagged_devices tag ds ≡ ok tagged)
      × AllTagged tag tagged
      × Chosen tagged hostname r
unfolding select_device
select_device-Chosen tag hostname response r h = elim (Outcome-cases (devices_of response)) [
  | inr (x, e) ↦ absurd (cc (rw (e, select_device) at h))
  | inl (ds, e) ↦ elim (Outcome-cases (tagged_devices tag ds)) [
    | inr (x, none_tagged) ↦ absurd (cc (rw (e, none_tagged, select_device) at h))
    | inl (tagged, found) ↦
        let choice : choose hostname tagged ≡ r = cc (rw (e, found, select_device) at h) in
        (
          ds,
          tagged,
          e,
          found,
          tagged_devices-AllTagged tag ds tagged found,
          subst (Chosen tagged hostname) choice (choose-Chosen hostname tagged),
        )
  ]
]
