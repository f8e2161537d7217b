-- ===== src/Ttl/Lifetime.antt =====
-- What a TTL says, apart from how the code reads it.
use shard_vpn.Prelude.{
  length, ◌≡◌, refl, ap, sym, subst, ◌∙◌, inl, inr, ℕ, ◌*◌, ◌≤◌, Text, txt, ◌==◌, ==_iff, true,
  some, some_inj, [], ◌∷◌, ◌++◌, arith, eqb, All, Bool-cases, Option-cases,
}
use shard_vpn.Python.Json.{Json, null, str}
use shard_vpn.Python.Decimal.{is_digit, read_digits}
use shard_vpn.Ttl.{never, no_expiry, unit_seconds, span_digits, groups, match_ttl}

-- The letters of the units, and their lengths in seconds.
pub data IsUnit : ℕ → ℕ → Type 0 where
  minutes : IsUnit b'm' 60
  hours : IsUnit b'h' 3600
  days : IsUnit b'd' 86_400

-- A TTL of `n` seconds: a decimal count and the letter of a unit.
pub record IsLifetime (ttl : Json) (n : ℕ) : Type 0 where
  pub count : Text
  pub letter : ℕ
  pub seconds : ℕ
  pub spelled : ttl ≡ str (count ++ (letter ∷ []))
  pub counted : 1 ≤ length count
  pub decimal : All (λ c. is_digit c ≡ true) count
  pub unit : IsUnit letter seconds
  pub total : n ≡ read_digits 0 count * seconds

-- A TTL without an end.
pub data IsUnlimited : Json → Type 0 where
  absent : IsUnlimited null
  says_never : IsUnlimited (str (txt "never"))
  says_none : IsUnlimited (str (txt "none"))

unit_seconds-IsUnit : (c u : ℕ) → unit_seconds c ≡ some u → IsUnit c u
unfolding unit_seconds
unit_seconds-IsUnit c u h = elim (Bool-cases (eqb c b'm')) [
  | inl m ↦
      let letter : b'm' ≡ c = ground (arith, m) in
      let length : 60 ≡ u = some_inj (rw m at h) in
      subst (λ l. IsUnit l u) letter (subst (IsUnit b'm') length minutes)
  | inr not_m ↦ elim (Bool-cases (eqb c b'h')) [
    | inl hh ↦
        let letter : b'h' ≡ c = ground (arith, hh) in
        let length : 3600 ≡ u = some_inj (rw (not_m, hh) at h) in
        subst (λ l. IsUnit l u) letter (subst (IsUnit b'h') length hours)
    | inr not_h ↦ elim (Bool-cases (eqb c b'd')) [
      | inl d ↦
          let letter : b'd' ≡ c = ground (arith, d) in
          let length : 86_400 ≡ u = some_inj (rw (not_m, not_h, d) at h) in
          subst (λ l. IsUnit l u) letter (subst (IsUnit b'd') length days)
      | inr not_d ↦ absurd (cc (rw (not_m, not_h, not_d) at h))
    ]
  ]
]

span_digits-lem :
    (s : Text)
    → ((span_digits s).0 ++ (span_digits s).1 ≡ s) × All (λ c. is_digit c ≡ true) (span_digits s).0
unfolding span_digits
span_digits-lem [] = (refl, tt)
span_digits-lem (c ∷ s) =
    let (joined, digits) = span_digits-lem s in
    elim (Bool-cases (is_digit c)) [
      | inl digit ↦ rw digit (ap (λ l. c ∷ l) joined, (digit, digits))
      | inr other ↦ rw other (refl, tt)
    ]

groups-lem :
    (ds rest : Text) (p : Text × ℕ)
    → groups ds rest ≡ some p
    → (p.0 ≡ ds) × (1 ≤ length ds) × ((c : ℕ) × (rest ≡ c ∷ []) × IsUnit c p.1)
groups-lem [] rest p h = absurd (cc)
groups-lem (d ∷ ds) [] p h = absurd (cc)
groups-lem (d ∷ ds) (c ∷ e ∷ s) p h = absurd (cc)
groups-lem (d ∷ ds) (c ∷ []) p h = elim (Option-cases (unit_seconds c)) [
  | inl unknown ↦ absurd (cc (rw (unknown, groups) at h))
  | inr (u, known) ↦
      let same : (d ∷ ds, u) ≡ p = some_inj (rw (known, groups) at h) in
      (
        ap (λ q. q.0) (sym same),
        omega arith,
        (c, refl, subst (IsUnit c) (ap (λ q. q.1) same) (unit_seconds-IsUnit c u known)),
      )
]

pub match_ttl-IsLifetime :
    (ttl : Text) (p : Text × ℕ)
    → match_ttl ttl ≡ some p
    → IsLifetime (str ttl) (read_digits 0 p.0 * p.1)
unfolding match_ttl
match_ttl-IsLifetime ttl p h =
    let (joined, digits) = span_digits-lem ttl in
    let (same, several, (c, last, unit)) = groups-lem (span_digits ttl).0 (span_digits ttl).1 p h in
    record {
      count = (span_digits ttl).0;
      letter = c;
      seconds = p.1;
      spelled = ap str (sym joined ∙ ap (λ l. (span_digits ttl).0 ++ l) last);
      counted = several;
      decimal = digits;
      unit = unit;
      total = ap (λ l. read_digits 0 l * p.1) same;
    }

pub no_expiry-IsUnlimited : (ttl : Text) → no_expiry ttl ≡ true → IsUnlimited (str ttl)
unfolding no_expiry never
no_expiry-IsUnlimited ttl h = elim (Bool-cases (ttl == txt "never")) [
  | inl e ↦ rw ((==_iff ttl (txt "never")).0 e) says_never
  | inr other ↦
      let e : (ttl == txt "none") ≡ true = rw other at h in
      rw ((==_iff ttl (txt "none")).0 e) says_none
]
