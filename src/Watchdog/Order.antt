-- ===== src/Watchdog/Order.antt =====
-- `order_survivors` sorts newest first, keeps every node, and refuses exactly when it would guess.
use mathlib.Core.List.{Perm}
use mathlib.Core.List.Perm
use shard_vpn.Prelude.{
  ℕ, length, ◌↔◌, ◌≤◌, ◌≡◌, some_inj, refl, ap, subst, true, false, Option, none, some, List, [],
  ◌∷◌, map, arith, leb, All, Bool-cases, Option-cases, inl, inr, ◌⊎◌,
}
use shard_vpn.DateTime.{DateTime}
use shard_vpn.Watchdog.{
  ordered_by, node_of, Node, launch_time, launch_times, insert_node, sort_nodes, order_survivors,
}

-- Each node is at least as new as all behind it.
abbrev pub NewestFirst : List (DateTime × Node) → Type 0
NewestFirst [] = Unit
NewestFirst (x ∷ xs) = All (λ y. y.0 ≤ x.0) xs × NewestFirst xs

insert_node-perm :
    (x : DateTime × Node) (ys : List (DateTime × Node)) → Perm (insert_node x ys) (x ∷ ys)
unfolding insert_node
insert_node-perm x [] = Perm.refl (x ∷ [])
insert_node-perm x (y ∷ ys) = elim (Bool-cases (leb y.0 x.0)) [
  | inl older ↦ rw older (Perm.refl (x ∷ y ∷ ys))
  | inr newer ↦ rw newer (Perm.trans (Perm.cons y (insert_node-perm x ys)) (Perm.swap x y ys))
]

sort_nodes-perm : (xs : List (DateTime × Node)) → Perm (sort_nodes xs) xs
unfolding sort_nodes
sort_nodes-perm [] = Perm.refl []
sort_nodes-perm (x ∷ xs) =
    Perm.trans (insert_node-perm x (sort_nodes xs)) (Perm.cons x (sort_nodes-perm xs))

insert_node-All :
    (t : ℕ) (x : DateTime × Node) (ys : List (DateTime × Node))
    → x.0 ≤ t
    → All (λ y. y.0 ≤ t) ys
    → All (λ y. y.0 ≤ t) (insert_node x ys)
unfolding insert_node
insert_node-All t x [] h hs = (h, tt)
insert_node-All t x (y ∷ ys) h hs = ground (arith, insert_node-All t x ys h hs.1)

All-le_trans :
    (t u : ℕ) (ys : List (DateTime × Node)) → t ≤ u → All (λ y. y.0 ≤ t) ys → All (λ y. y.0 ≤ u) ys
All-le_trans t u [] h hs = tt
All-le_trans t u (y ∷ ys) h hs = (omega arith, All-le_trans t u ys h hs.1)

insert_node-NewestFirst :
    (x : DateTime × Node) (ys : List (DateTime × Node))
    → NewestFirst ys
    → NewestFirst (insert_node x ys)
unfolding insert_node
insert_node-NewestFirst x [] h = (tt, tt)
insert_node-NewestFirst x (y ∷ ys) h =
    ground
      (arith, insert_node-NewestFirst x ys h.1, insert_node-All y.0 x ys, All-le_trans y.0 x.0 ys)

sort_nodes-NewestFirst : (xs : List (DateTime × Node)) → NewestFirst (sort_nodes xs)
unfolding sort_nodes
sort_nodes-NewestFirst [] = tt
sort_nodes-NewestFirst (x ∷ xs) =
    insert_node-NewestFirst x (sort_nodes xs) (sort_nodes-NewestFirst xs)

-- Both launch times are known, and the first node is at least as new as the second.
abbrev pub NotOlder : Node → Node → Type 0
NotOlder n m =
    (t : DateTime) × (u : DateTime) × (launch_time n ≡ some t) × (launch_time m ≡ some u) × (u ≤ t)

abbrev pub NewestFirstNodes : List Node → Type 0
NewestFirstNodes [] = Unit
NewestFirstNodes (n ∷ ns) = All (NotOlder n) ns × NewestFirstNodes ns

-- The parsed times are those of the nodes.
abbrev IsParsed : DateTime × Node → Type 0
IsParsed (t, n) = launch_time n ≡ some t

launch_times-lem :
    (ns : List Node) (ps : List (DateTime × Node))
    → launch_times ns ≡ some ps
    → (map node_of ps ≡ ns) × All IsParsed ps
unfolding launch_times node_of
launch_times-lem [] ps h =
    subst (λ p. (map node_of p ≡ []) × All IsParsed p) (some_inj h) (refl, tt)
launch_times-lem (n ∷ ns) ps h = elim (Option-cases (launch_time n)) [
  | inl unknown ↦ absurd (cc (rw (unknown, launch_times) at h))
  | inr (t, known) ↦ elim (Option-cases (launch_times ns)) [
    | inl others ↦ absurd (cc (rw (known, others, launch_times) at h))
    | inr (rest, others) ↦
        let ih = launch_times-lem ns rest others in
        subst (λ p. (map node_of p ≡ n ∷ ns) × All IsParsed p)
          (some_inj (rw (known, others, launch_times) at h)) (ap (λ l. n ∷ l) ih.0, (known, ih.1))
  ]
]

insert_node-IsParsed :
    (x : DateTime × Node) (ys : List (DateTime × Node))
    → IsParsed x
    → All IsParsed ys
    → All IsParsed (insert_node x ys)
unfolding insert_node
insert_node-IsParsed x [] h hs = (h, tt)
insert_node-IsParsed x (y ∷ ys) h hs = elim (Bool-cases (leb y.0 x.0)) [
  | inl older ↦ rw older (h, hs)
  | inr newer ↦ rw newer (hs.0, insert_node-IsParsed x ys h hs.1)
]

sort_nodes-IsParsed : (xs : List (DateTime × Node)) → All IsParsed xs → All IsParsed (sort_nodes xs)
unfolding sort_nodes
sort_nodes-IsParsed [] h = tt
sort_nodes-IsParsed (x ∷ xs) h =
    insert_node-IsParsed x (sort_nodes xs) h.0 (sort_nodes-IsParsed xs h.1)

nodes-NotOlder :
    (x : DateTime × Node) (ys : List (DateTime × Node))
    → IsParsed x
    → All IsParsed ys
    → All (λ y. y.0 ≤ x.0) ys
    → All (NotOlder x.1) (map node_of ys)
unfolding node_of
nodes-NotOlder x [] hx hs hle = tt
nodes-NotOlder x (y ∷ ys) hx hs hle =
    ((x.0, y.0, hx, hs.0, hle.0), nodes-NotOlder x ys hx hs.1 hle.1)

nodes-NewestFirst :
    (xs : List (DateTime × Node))
    → All IsParsed xs
    → NewestFirst xs
    → NewestFirstNodes (map node_of xs)
unfolding node_of
nodes-NewestFirst [] h s = tt
nodes-NewestFirst (x ∷ xs) h s = (nodes-NotOlder x xs h.0 h.1 s.0, nodes-NewestFirst xs h.1 s.1)

ordered_by-lem :
    (ns : List Node) (o : Option (List (DateTime × Node))) (ordered : List Node)
    → launch_times ns ≡ o
    → ordered_by ns o ≡ (ordered, true)
    → Perm ordered ns × NewestFirstNodes ordered
unfolding ordered_by
ordered_by-lem ns none ordered known h = absurd (cc)
ordered_by-lem ns (some ps) ordered known h =
    let (nodes, parsed) = launch_times-lem ns ps known in
    subst (λ l. Perm l ns × NewestFirstNodes l) (ap (λ p. p.0) h)
      (
        subst (Perm (map node_of (sort_nodes ps))) nodes (Perm.map node_of (sort_nodes-perm ps)),
        nodes-NewestFirst (sort_nodes ps) (sort_nodes-IsParsed ps parsed)
            (sort_nodes-NewestFirst ps),
      )

-- When the survivors of a sweep can be ordered, the result holds the same nodes, and each node in it
-- has a launch time that reads as a time not before that of any node behind it: the first, which
-- the sweep keeps, is a newest one.
pub order_survivors-newest_first :
    (ns ordered : List Node)
    → order_survivors ns ≡ (ordered, true)
    → Perm ordered ns × NewestFirstNodes ordered
unfolding order_survivors
order_survivors-newest_first [] ordered h =
    subst (λ l. Perm l [] × NewestFirstNodes l) (ap (λ p. p.0) h) (Perm.refl [], tt)
order_survivors-newest_first (n ∷ []) ordered h =
    subst (λ l. Perm l (n ∷ []) × NewestFirstNodes l) (ap (λ p. p.0) h)
      (Perm.refl (n ∷ []), (tt, tt))
order_survivors-newest_first (n ∷ m ∷ ns) ordered h =
    ordered_by-lem (n ∷ m ∷ ns) (launch_times (n ∷ m ∷ ns)) ordered refl h

-- Some launch time does not read as a time, or is missing.
abbrev pub AnyUnknown : List Node → Type 0
AnyUnknown [] = ⊥
AnyUnknown (n ∷ ns) = (launch_time n ≡ none) ⊎ AnyUnknown ns

launch_times-none : (ns : List Node) → (launch_times ns ≡ none) ↔ AnyUnknown ns
unfolding launch_times
launch_times-none [] = ((λ h. absurd (cc)), (λ h. absurd h))
launch_times-none (n ∷ ns) =
    let ih = launch_times-none ns in
    elim (Option-cases (launch_time n)) [
      | inl unknown ↦ ((λ h. inl unknown), (λ h. rw (unknown, launch_times)))
      | inr (t, known) ↦ elim (Option-cases (launch_times ns)) [
        | inl others ↦ ((λ h. inr (ih.0 others)), (λ h. rw (known, others, launch_times)))
        | inr (rest, others) ↦ (
          (λ h. absurd (cc (rw (known, others, launch_times) at h))),
          (λ h. absurd (elim h [ inl unknown ↦ cc | inr later ↦ cc (ih.1 later) ])),
        )
      ]
    ]

-- The order is refused exactly when there are two survivors or more and the launch time of one is
-- missing or malformed; the survivors then come back as they were.
pub order_survivors_refuses :
    (ns : List Node)
    → (((order_survivors ns).1 ≡ false) ↔ ((2 ≤ length ns) × AnyUnknown ns))
      × ((order_survivors ns).1 ≡ false → (order_survivors ns).0 ≡ ns)
unfolding order_survivors ordered_by
order_survivors_refuses [] = (((λ h. absurd (cc)), (λ h. absurd h.1)), (λ h. refl))
order_survivors_refuses (n ∷ []) = (((λ h. absurd (cc)), (λ h. absurd (omega arith))), (λ h. refl))
order_survivors_refuses (n ∷ m ∷ ns) = elim (Option-cases (launch_times (n ∷ m ∷ ns))) [
  | inl unknown ↦
      rw unknown (
        ((λ h. (omega arith, (launch_times-none (n ∷ m ∷ ns)).0 unknown)), (λ h. refl)),
        (λ h. refl),
      )
  | inr (ps, known) ↦ rw known (
    ((λ h. absurd (cc)), (λ h. absurd (cc ((launch_times-none (n ∷ m ∷ ns)).1 h.1)))),
    (λ h. absurd (cc)),
  )
]
