-- ===== src/DeviceTree/Preorder.antt =====
-- The order in which libfdt lists the nodes for class Parent_cache of server/src/dt.h, and the stack
-- of its scan.
use mathlib.Core.Path.{subst}
use bootstrap.Prelude.{
  ℕ, suc, ◌-◌, ◌<◌, ◌≡◌, refl, sym, ◌∙◌, inl, inr, true, false, Option, none, some, List, [], ◌∷◌,
  ◌++◌, arith, ltb, ◌==◌, if◌then◌else◌, Bool-cases, Option-cases, Bool,
}
use bootstrap.DeviceTree.{Fdt, push}

-- The last node of a list that is one level above a depth.
unfoldable pub nearest : List (ℕ × ℕ) → ℕ → Option ℕ
nearest [] depth = none
nearest (n ∷ ns) depth = elim (nearest ns depth) [
  | none ↦ if suc n.1 == depth then some n.0 else none
  | some p ↦ some p
]

-- The documented answers of libfdt for a list of nodes in front of which `near` has the last node one
-- level above each depth: `fdt_parent_offset` of a node other than the root, which has the offset 0,
-- is the last node before it that is one level above. Nothing is asked of the root, of which the call
-- of `fdt_next_node` with the offset -1 and the depth 0 reports the depth 1.
unfoldable pub Preorder : Fdt → (ℕ → Option ℕ) → List (ℕ × ℕ) → Type 0
Preorder fdt near [] = Unit {0}
Preorder fdt near (n ∷ ns) =
    (0 < n.0 → near n.1 ≡ some (fdt.parent_offset n.0))
    × Preorder fdt (λ depth. if suc n.1 == depth then some n.0 else near depth) ns

unfoldable pub IsPreorder : Fdt → Type 0
unfolding Preorder
IsPreorder fdt = Preorder fdt (λ depth. none) fdt.nodes

first_of : Option ℕ → Option ℕ → Option ℕ
first_of none o = o
first_of (some p) o = some p

nearest-Preorder :
    (fdt : Fdt) (near : ℕ → Option ℕ) (before after : List (ℕ × ℕ)) (n : ℕ × ℕ)
    → Preorder fdt near (before ++ n ∷ after)
    → 0 < n.0
    → first_of (nearest before n.1) (near n.1) ≡ some (fdt.parent_offset n.0)
unfolding Preorder nearest first_of
nearest-Preorder fdt near [] after n (here, later) z = here z
nearest-Preorder fdt near (x ∷ before) after n (here, later) z =
    let rest : first_of (nearest before n.1) (if suc x.1 == n.1 then some x.0 else near n.1)
        ≡ some (fdt.parent_offset n.0) =
      nearest-Preorder fdt (λ depth. if suc x.1 == depth then some x.0 else near depth) before after
        n later z in
    elim (Option-cases (nearest before n.1)) [
      | inl e ↦ rw (e, (else_near (suc x.1 == n.1))) (rw e at rest)
      | inr (p, e) ↦ rw e (rw e at rest)
    ]
  where
    else_near :
        (b : Bool)
        → first_of (if b then some x.0 else none) (near n.1) ≡ (if b then some x.0 else near n.1)
    else_near true = refl
    else_near false = refl

first_of-none : (o : Option ℕ) → first_of o none ≡ o
unfolding first_of
first_of-none none = refl
first_of-none (some p) = refl

pub nearest-IsPreorder :
    (fdt : Fdt) (before after : List (ℕ × ℕ)) (n : ℕ × ℕ)
    → IsPreorder fdt
    → fdt.nodes ≡ before ++ n ∷ after
    → 0 < n.0
    → nearest before n.1 ≡ some (fdt.parent_offset n.0)
unfolding IsPreorder
nearest-IsPreorder fdt before after n pre split z =
    sym (first_of-none (nearest before n.1))
    ∙ nearest-Preorder fdt (λ depth. none) before after n
        (subst (Preorder fdt (λ depth. none)) split pre) z

-- The stack behind the nodes of a list.
unfoldable pub pushed : List (ℕ × ℕ) → (ℕ → ℕ) → ℕ → ℕ
unfolding push
pushed [] stack = stack
pushed (n ∷ ns) stack = pushed ns (if ltb n.1 16 then push stack n.1 n.0 else stack)

-- What one node leaves on the stack one level above a depth.
pushed_one :
    (n : ℕ × ℕ) (stack : ℕ → ℕ) (depth : ℕ)
    → 0 < depth
    → depth < 17
    → (if ltb n.1 16 then push stack n.1 n.0 else stack) (depth - 1)
      ≡ (if suc n.1 == depth then n.0 else stack (depth - 1))
unfolding push
pushed_one n stack depth z h = elim (Bool-cases (ltb n.1 16)) [
  | inl small ↦ rw small (ground (arith, z))
  | inr deep ↦ rw deep (ground (arith, deep, h))
]

unfoldable pub or_else : Option ℕ → ℕ → ℕ
or_else none d = d
or_else (some p) d = p

pub pushed-nearest :
    (ns : List (ℕ × ℕ)) (stack : ℕ → ℕ) (depth : ℕ)
    → 0 < depth
    → depth < 17
    → pushed ns stack (depth - 1) ≡ or_else (nearest ns depth) (stack (depth - 1))
unfolding pushed nearest or_else
pushed-nearest [] stack depth z h = refl
pushed-nearest (n ∷ ns) stack depth z h =
    pushed-nearest ns (if ltb n.1 16 then push stack n.1 n.0 else stack) depth z h
    ∙ (elim (Option-cases (nearest ns depth)) [
      | inl e ↦ rw (e, pushed_one n stack depth z h) (or_else_if (suc n.1 == depth))
      | inr (p, e) ↦ rw e refl
    ])
  where
    or_else_if :
        (b : Bool)
        → (if b then n.0 else stack (depth - 1))
          ≡ or_else (if b then some n.0 else none) (stack (depth - 1))
    or_else_if true = refl
    or_else_if false = refl
