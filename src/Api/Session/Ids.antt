-- ===== src/Api/Session/Ids.antt =====
-- The allocation of node ids: `next_node_id` is the smallest id that is free, or 0 if none is.
use p2pnet.Base.{
  ℕ, suc, ◌%◌, ◌≤◌, ◌<◌, ◌≡◌, ◌≢◌, refl, ◌⊎◌, inl, inr, true, false, List, [], ◌∷◌, none, some,
  arith, leb, ltb, ◌==◌, if◌then◌else◌, Bool-cases, dec_lt, ◌||◌,
}
use p2pnet.Base.Maps.{find, erase, find-erase, nat_eq}
use p2pnet.Api.Session.{NodeEntry, insert_node, entries_after, skip_taken, increment, u32_mod}

abbrev Nodes : Type 0
Nodes = List (ℕ × NodeEntry)

-- The keys rise along the map from above `b`, and are uint32_t numbers.
abbrev pub Above : ℕ → List (ℕ × NodeEntry) → Type 0
Above b [] = Unit
Above b ((j, e) ∷ nodes) = (b < j) × (j < u32_mod) × Above j nodes

Above-mono : {a b : ℕ} (nodes : Nodes) → a ≤ b → Above b nodes → Above a nodes
Above-mono [] h v = tt
Above-mono ((j, e) ∷ nodes) h v = (omega arith, v.1, v.2)

find_below : (i b : ℕ) (nodes : Nodes) → Above b nodes → i ≤ b → find i nodes ≡ none
unfolding find
find_below i b [] v h = refl
find_below i b ((j, e) ∷ nodes) v h = ground (arith, find_below i j nodes v.2)

pub erase-Above : (i b : ℕ) (nodes : List (ℕ × NodeEntry)) → Above b nodes → Above b (erase i nodes)
unfolding erase
erase-Above i b [] v = tt
erase-Above i b ((j, e) ∷ nodes) v =
    ground (arith, erase-Above i j nodes v.2, Above-mono {a = b} {b = j} (erase i nodes))

insert_node-Above :
    (i b : ℕ) (x : NodeEntry) (nodes : Nodes)
    → b < i
    → i < u32_mod
    → Above b nodes
    → Above b (insert_node i x nodes)
unfolding insert_node
insert_node-Above i b x [] h k v = (h, k, tt)
insert_node-Above i b x ((j, e) ∷ nodes) h k v = ground (arith, insert_node-Above i j x nodes)

pub find-insert_node :
    (i j : ℕ) (x : NodeEntry) (nodes : Nodes)
    → find i nodes ≡ none
    → find j (insert_node i x nodes) ≡ (if i == j then some x else find j nodes)
unfolding find insert_node
find-insert_node i j x [] h = refl
find-insert_node i j x ((k, e) ∷ nodes) h = ground (arith, find-insert_node i j x nodes)

entries_after-Above :
    (i b : ℕ) (nodes : Nodes)
    → Above b nodes
    → find i nodes ≢ none
    → Above i (entries_after i nodes)
unfolding find entries_after
entries_after-Above i b [] v h = absurd (h refl)
entries_after-Above i b ((j, e) ∷ nodes) v h = elim (Bool-cases (j == i)) [
  | inl same ↦ rw same (let q : j ≡ i = ground arith in rw (← q) v.2)
  | inr other ↦ rw other (entries_after-Above i j nodes v.2 (rw other at h))
]

find-entries_after :
    (i j b : ℕ) (nodes : Nodes)
    → Above b nodes
    → find i nodes ≢ none
    → i < j
    → find j (entries_after i nodes) ≡ find j nodes
unfolding find entries_after
find-entries_after i j b [] v h lt = absurd (h refl)
find-entries_after i j b ((k, e) ∷ nodes) v h lt = elim (Bool-cases (k == i)) [
  | inl same ↦ rw same (ground arith)
  | inr other ↦
      let k_below : i ≤ k → ⊥ = λ le. h (rw other (find_below i k nodes v.2 le)) in
      rw other (ground (arith, find-entries_after i j k nodes v.2 (rw other at h) lt))
]

-- The loop that looks for the next id, from `n` upwards over the entries behind it; `n` may have
-- reached 2 ^ 32, where the counter reads 0.
abbrev pub IsNextFree : ℕ → ℕ → List (ℕ × NodeEntry) → Type 0
IsNextFree n r nodes =
    ((r ≡ 0) × ((i : ℕ) → n ≤ i → i < u32_mod → find i nodes ≢ none))
    ⊎ ((n ≤ r)
        × (r < u32_mod)
        × (find r nodes ≡ none)
        × ((i : ℕ) → n ≤ i → i < r → find i nodes ≢ none))

find-cons :
    (i j : ℕ) (e : NodeEntry) (nodes : Nodes)
    → find i ((j, e) ∷ nodes) ≡ (if j == i then some e else find i nodes)
unfolding find
find-cons i j e nodes = refl

-- One more entry in front, at the number that the loop has reached.
IsNextFree-step :
    (n r : ℕ) (e : NodeEntry) (nodes : Nodes)
    → IsNextFree (suc n) r nodes
    → IsNextFree n r ((n, e) ∷ nodes)
IsNextFree-step n r e nodes (inl (z, all)) =
    inl (z, λ i le lt. ground (arith, find-cons i n e nodes, all i))
IsNextFree-step n r e nodes (inr (le, lt, free, all)) = inr (
  omega arith,
  lt,
  ground (arith, find-cons r n e nodes),
  λ i le' lt'. ground (arith, find-cons i n e nodes, all i),
)

skip_taken-IsNextFree :
    (n c : ℕ) (nodes : Nodes)
    → 0 < n
    → n ≤ suc c
    → n ≤ u32_mod
    → Above c nodes
    → IsNextFree n (skip_taken (n % u32_mod) nodes) nodes
unfolding skip_taken
skip_taken-IsNextFree n c [] h k top v = elim (Bool-cases (n == u32_mod)) [
  | inl full ↦
      let e : n ≡ u32_mod = ground arith in inl (omega arith, λ i le lt. absurd (omega arith))
  | inr small ↦
      let e : n % u32_mod ≡ n = ground arith in
      rw e (inr (omega arith, ground arith, unfold find in refl, λ i le lt. absurd (omega arith)))
]
skip_taken-IsNextFree n c ((j, e) ∷ nodes) h k top v =
    let small : n % u32_mod ≡ n = omega (arith, v.0, v.1) in
    rw small (elim (Bool-cases (leb j n)) [
      | inl hit ↦
          let same : j ≡ n = ground (arith, v.0) in
          let zero_test : (n == 0) ≡ false = ground arith in
          rw (hit, zero_test)
            (rw same (
              IsNextFree-step n _ e nodes (
                let next : increment n ≡ suc n % u32_mod = omega arith in
                rw next (
                  skip_taken-IsNextFree (suc n) j nodes (omega arith) (omega arith)
                    (omega (arith, v.1)) v.2))))
      | inr past ↦
          let zero_test : (n == 0) ≡ false = ground arith in
          rw (past, zero_test)
            (inr (
              omega arith,
              omega (arith, v.1, small),
              ground (arith, find-cons n j e nodes, find_below n j nodes v.2),
              λ i le lt. absurd (omega arith),
            ))
    ])

-- Taking the next free id and running the loop gives the next free id of the larger map.
module _ (r : ℕ) (x : NodeEntry) (nodes : List (ℕ × NodeEntry)) (v : Above 0 nodes) (pos : 0 < r)
    (top : r < u32_mod) (free : find r nodes ≡ none) where
  abbrev nodes' : Nodes
  nodes' = insert_node r x nodes

  at_new : find r nodes' ≢ none
  at_new e = ground (arith, find-insert_node r r x nodes free)

  module _ (used : (i : ℕ) → 1 ≤ i → i < r → find i nodes ≢ none) where
    above' : Above 0 nodes'
    above' = insert_node-Above r 0 x nodes pos top v

    taken : (i : ℕ) → 1 ≤ i → i ≤ r → find i nodes' ≢ none
    taken i le le' e = ground (arith, find-insert_node r i x nodes free, used i le)

    behind : (i : ℕ) → r < i → find i (entries_after r nodes') ≡ find i nodes'
    behind i lt = find-entries_after r i 0 nodes' above' at_new lt

    from_new : (q : ℕ) → IsNextFree (suc r) q (entries_after r nodes') → IsNextFree 1 q nodes'
    from_new q (inl (z, all)) = inl (
      z,
      λ i le lt. elim (dec_lt r i) [
        | yes p ↦ rw (← behind i p) (all i p lt)
        | no p ↦ taken i le (omega arith)
      ],
    )
    from_new q (inr (le, lt, fr, all)) = inr (
      omega arith,
      lt,
      rw (← behind q le) fr,
      λ i le' lt'. elim (dec_lt r i) [
        | yes p ↦ rw (← behind i p) (all i p lt')
        | no p ↦ taken i le' (omega arith)
      ],
    )

    pub insert_node-IsNextFree :
        Above 0 (insert_node r x nodes)
        × IsNextFree 1
            (skip_taken (increment r) (entries_after r (insert_node r x nodes)))
            (insert_node r x nodes)
    insert_node-IsNextFree =
        let next : increment r ≡ suc r % u32_mod = omega arith in
        (
          above',
          rw next (
              from_new _ (
                skip_taken-IsNextFree (suc r) r (entries_after r nodes') (omega arith) (omega arith)
                  (omega arith) (entries_after-Above r 0 nodes' above' at_new))),
        )

key_bounds :
    (i b : ℕ) (nodes : Nodes) → Above b nodes → find i nodes ≢ none → (b < i) × (i < u32_mod)
key_bounds i b [] v h = absurd (h (unfold find in refl))
key_bounds i b ((j, e) ∷ nodes) v h = elim (Bool-cases (j == i)) [
  | inl same ↦ ground (arith, v.0, v.1)
  | inr other ↦
      let rest = key_bounds i j nodes v.2 (λ n. h (rw (find-cons i j e nodes, other) n)) in
      (omega (arith, v.0, rest.0), rest.1)
]

-- Giving an id back: the smaller of it and the next free id is the next free id.
pub erase-IsNextFree :
    (id r : ℕ) (nodes : List (ℕ × NodeEntry))
    → Above 0 nodes
    → find id nodes ≢ none
    → IsNextFree 1 r nodes
    → Above 0 (erase id nodes)
      × IsNextFree 1 (if ltb id r || (r == 0) then id else r) (erase id nodes)
erase-IsNextFree id r nodes v held h = (erase-Above id 0 nodes v, next h)
  where
    bounds : (0 < id) × (id < u32_mod)
    bounds = key_bounds id 0 nodes v held

    given_back : ((i : ℕ) → 1 ≤ i → i < id → find i nodes ≢ none) → IsNextFree 1 id (erase id nodes)
    given_back all = inr (
      bounds.0,
      bounds.1,
      ground (arith, find-erase id id nodes),
      λ i le lt. ground (arith, find-erase id i nodes, all i le lt),
    )

    next :
        IsNextFree 1 r nodes
        → IsNextFree 1 (if ltb id r || (r == 0) then id else r) (erase id nodes)
    next (inl (z, all)) =
        let test : (ltb id r || (r == 0)) ≡ true = ground arith in
        rw test (given_back (λ i le lt. all i le (omega (arith, bounds.1))))
    next (inr (le, lt, fr, all)) = elim (Bool-cases (ltb id r || (r == 0))) [
      | inl test ↦ rw test (given_back (λ i le' lt'. all i le' (ground arith)))
      | inr test ↦ rw test (
          inr (
            le,
            lt,
            ground (arith, find-erase id r nodes),
            λ i le' lt'. ground (arith, find-erase id i nodes, all i le' lt'),
          ))
    ]
