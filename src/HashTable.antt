-- ===== src/HashTable.antt =====
-- HashTable.h and HashTable.cpp: a chained hash table. A chain is a list of nodes, newest first,
-- and `table` a function of the index; the pointer to a table is an Option, `none` for NULL.
-- What `malloc` leaves in a new table is an argument.
pub mod Stacks
use mathlib.Core.Option
use type_ii_hypervisor_code.Common.{
  ℕ, ◌*◌, ◌/◌, ◌%◌, ◌^◌, bit_xor, Bool, ◌==◌, if◌then◌else◌, Option, none, some, List, [], ◌∷◌,
  Result, and_then,
}
use type_ii_hypervisor_code.Word.{u32, shr}

pub record Node : Type 0 where
  pub val : ℕ
  pub key : ℕ

pub record Table : Type 0 where
  pub table : ℕ → List Node
  pub size : ℕ

-- `size` is a `uint32_t`; the function takes 64 bits.
unfoldable pub ht_create : (ℕ → List Node) → ℕ → Table
ht_create left size = record { table = left; size = u32 size }

unfoldable pub hash : ℕ → ℕ
hash hashval = let h = bit_xor (shr hashval 17) hashval in bit_xor (shr h 8) h

-- A table of size 0 divides by zero.
unfoldable pub index_of : ℕ → ℕ → Result ℕ
index_of hashval size = if size == 0 then Result.undefined else Result.ok (hashval % size)

-- The chain of a key.
abbrev pub bucket : Table → ℕ → Result ℕ
bucket ht key = index_of (hash key) ht.size

-- The loop of `ht_get`; `none` is the flag 0.
unfoldable pub find_node : ℕ → List Node → Option ℕ
find_node key [] = none
find_node key (n ∷ next) = if n.key == key then some n.val else find_node key next

unfoldable pub ht_get : Option Table → ℕ → Result (Option ℕ)
unfolding index_of
ht_get none key = Result.ok none
ht_get (some ht) key = and_then (bucket ht key) (λ idx. Result.ok (find_node key (ht.table idx)))

-- `ht->table[idx] = nodes`.
unfoldable pub set_chain : Table → ℕ → List Node → Table
set_chain ht idx nodes = record ht { table = λ j. if j == idx then nodes else ht.table j }

unfoldable pub ht_put : Option Table → ℕ → ℕ → Result (Option Table)
unfolding set_chain index_of
ht_put none key val = Result.ok none
ht_put (some ht) key val =
    let new : Node = record { val = u32 val; key = key } in
    and_then (bucket ht key) (λ idx. Result.ok (some (set_chain ht idx (new ∷ ht.table idx))))

-- The chain without the first node of the key: the loop of `ht_remove` and the unlinking behind it.
unfoldable pub unlink : ℕ → List Node → List Node
unlink key [] = []
unlink key (n ∷ next) = if n.key == key then next else n ∷ unlink key next

unfoldable pub ht_remove : Option Table → ℕ → Result (Option Table)
unfolding set_chain index_of
ht_remove none key = Result.ok none
ht_remove (some ht) key =
    and_then (bucket ht key)
      (λ idx. Result.ok (some (set_chain ht idx (unlink key (ht.table idx)))))
