-- ===== src/HashTable/Stacks.antt =====
-- The table as what it promises: one stack of values for each key.
use type_ii_hypervisor_code.Common.{
  ℕ, ◌≡◌, ◌≢◌, refl, ap, ◌∙◌, true, false, ◌==◌, if◌then◌else◌, Option, none, some, List, [], ◌∷◌,
  arith, Bool-cases, inl, inr, ==_refl, ==_iff, ◌⊎◌, ◌%◌, Result, and_then, Succeeds,
}
use type_ii_hypervisor_code.Word.{u32}
use type_ii_hypervisor_code.HashTable.{
  Node, Table, hash, index_of, find_node, set_chain, ht_get, ht_put, unlink, ht_remove,
}

-- The values of a key in a chain, newest first.
unfoldable pub values : ℕ → List Node → List ℕ
values key [] = []
values key (n ∷ next) = let rest = values key next in if n.key == key then n.val ∷ rest else rest

unfoldable pub stack_of : Option Table → ℕ → List ℕ
stack_of none key = []
stack_of (some ht) key = values key (ht.table (hash key % ht.size))

abbrev pub top : List ℕ → Option ℕ
top [] = none
top (v ∷ rest) = some v

abbrev pub popped : List ℕ → List ℕ
popped [] = []
popped (v ∷ rest) = rest

find_node-top : (key : ℕ) (nodes : List Node) → find_node key nodes ≡ top (values key nodes)
unfolding find_node values
find_node-top key [] = refl
find_node-top key (n ∷ next) = elim (Bool-cases (n.key == key)) [
  | inl same ↦ rw same
  | inr other ↦ rw other (find_node-top key next)
]

unlink-own :
    (key : ℕ) (nodes : List Node) → values key (unlink key nodes) ≡ popped (values key nodes)
unfolding unlink values
unlink-own key [] = refl
unlink-own key (n ∷ next) = elim (Bool-cases (n.key == key)) [
  | inl same ↦ rw same
  | inr other ↦ rw (other, other) (unlink-own key next)
]

unlink-other :
    (key other : ℕ) (nodes : List Node)
    → key ≢ other
    → values other (unlink key nodes) ≡ values other nodes
unfolding unlink values
unlink-other key other [] h = refl
unlink-other key other (n ∷ next) h = elim (Bool-cases (n.key == key)) [
  | inl same ↦ ground arith
  | inr differ ↦ rw (differ, unlink-other key other next h)
]

module _ (ht : Table) (key val other : ℕ) (differ : (key == other) ≡ false) where
  put-other :
      (chain : ((hash other % ht.size == hash key % ht.size) ≡ true)
        ⊎ ((hash other % ht.size == hash key % ht.size) ≡ false))
      (new : Node)
      → new.key ≡ key
      → stack_of
          (some (set_chain ht (hash key % ht.size) (new ∷ ht.table (hash key % ht.size))))
          other
        ≡ stack_of (some ht) other
  unfolding stack_of set_chain values
  put-other (inl chain) new e =
      let same : hash other % ht.size ≡ hash key % ht.size = (==_iff _ _).0 chain in
      rw (chain, same)
        (ap
            (λ k.
              if k == other
              then new.val ∷ values other (ht.table (hash key % ht.size))
              else values other (ht.table (hash key % ht.size)))
            e
          ∙ rw differ refl)
  put-other (inr chain) new e = rw chain refl

  remove-other :
      ((hash other % ht.size == hash key % ht.size) ≡ true)
        ⊎ ((hash other % ht.size == hash key % ht.size) ≡ false)
      → stack_of
          (some (set_chain ht (hash key % ht.size) (unlink key (ht.table (hash key % ht.size)))))
          other
        ≡ stack_of (some ht) other
  unfolding stack_of set_chain
  remove-other (inl chain) =
      let same : hash other % ht.size ≡ hash key % ht.size = (==_iff _ _).0 chain in
      rw (chain, same, unlink-other key other (ht.table (hash key % ht.size)) (ground arith))
  remove-other (inr chain) = rw chain refl

-- In a table whose size is not 0 every operation has a result: a lookup gives the top of the key's
-- stack, or reports none if the stack is empty; a put of v pushes v modulo 2 ^ 32 on the stack of
-- its key and a remove pops the stack of its key, and both leave the stacks of the other keys
-- alone, those in the same chain too.
pub ht_refines_stacks :
    (ht : Table) (key val other : ℕ)
    → ht.size ≢ 0
    → (ht_get (some ht) other ≡ Result.ok (top (stack_of (some ht) other)))
      × Succeeds
          (λ ht'. stack_of ht' other ≡ (
            if key == other then u32 val ∷ stack_of (some ht) other else stack_of (some ht) other))
          (ht_put (some ht) key val)
      × Succeeds
          (λ ht'. stack_of ht' other ≡ (
            if key == other then popped (stack_of (some ht) other) else stack_of (some ht) other))
          (ht_remove (some ht) key)
unfolding ht_get stack_of ht_put ht_remove values index_of and_then set_chain
ht_refines_stacks ht key val other h =
    let divides : (ht.size == 0) ≡ false = ground arith in
    let found = find_node-top other (ht.table (hash other % ht.size)) in
    let chain = Bool-cases (hash other % ht.size == hash key % ht.size) in
    elim (Bool-cases (key == other)) [
      | inl same ↦
          let e : key ≡ other = ground arith in
          rw (e, divides)
            (
              ap Result.ok found,
              rw (==_refl, ==_refl),
              rw (==_refl, ==_refl, unlink-own other (ht.table (hash other % ht.size))),
            )
      | inr differ ↦
          rw (divides, differ)
            (
              ap Result.ok found,
              put-other ht key val other differ chain _ refl,
              remove-other ht key val other differ chain,
            )
    ]
