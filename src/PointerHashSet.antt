-- ===== src/PointerHashSet.antt =====
-- PointerHashSet of oi/OITraceCode.cpp, by which the generated code follows each pointer once: a table
-- of words with linear probing, where 0 is an empty slot.
pub mod Probes
pub mod Adds
use Prim.Native.Nat.{bit_xor}
use object_introspection.Prelude.{
  ℕ, zero, suc, ◌+◌, ◌-◌, ◌*◌, ◌/◌, ◌%◌, ◌^◌, List, Bool, true, false, Outcome, ok, out_of_fuel,
  add_u64, get_or, set, replicate, length, if◌then◌else◌, ◌==◌, ◌||◌, leb,
}

-- `key << k` and `key >> k` on a uint64_t.
abbrev shl : ℕ → ℕ → ℕ
shl key k = key * 2 ^ k % 2 ^ 64

abbrev shr : ℕ → ℕ → ℕ
shr key k = key / 2 ^ k

unfoldable pub twang_mix64 : ℕ → ℕ
twang_mix64 key₀ =
    let key₁ : ℕ = add_u64 (2 ^ 64 - 1 - key₀) (shl key₀ 21) in
    let key₂ : ℕ = bit_xor key₁ (shr key₁ 24) in
    let key₃ : ℕ = add_u64 (add_u64 key₂ (shl key₂ 3)) (shl key₂ 8) in
    let key₄ : ℕ = bit_xor key₃ (shr key₃ 14) in
    let key₅ : ℕ = add_u64 (add_u64 key₄ (shl key₄ 2)) (shl key₄ 4) in
    let key₆ : ℕ = bit_xor key₅ (shr key₅ 28) in add_u64 key₆ (shl key₆ 31)

-- `data` and `numEntries`.
pub record PointerHashSet : Type 0 where
  pub entries : List ℕ
  pub num_entries : ℕ

-- `initialize`, for the Size of the template.
abbrev pub initialize : ℕ → PointerHashSet
initialize size = record { entries = replicate size 0; num_entries = 0 }

-- The loop of `add`; the fuel bounds its turns.
unfoldable pub probe : ℕ → ℕ → ℕ → PointerHashSet → Outcome (Bool × PointerHashSet)
probe zero pointer index s = out_of_fuel
probe (suc f) pointer index s =
    let entry = get_or s.entries index 0 in
    let rest = probe f pointer ((index + 1) % length s.entries) s in
    if entry == 0
    then ok
        (true, record { entries = set s.entries index pointer; num_entries = s.num_entries + 1 })
    else if entry == pointer || leb (length s.entries) s.num_entries
    then ok (false, s)
    else rest

unfoldable pub add : ℕ → ℕ → PointerHashSet → Outcome (Bool × PointerHashSet)
unfolding probe twang_mix64
add fuel pointer s =
    if pointer == 0
    then ok (false, s)
    else probe fuel pointer (twang_mix64 pointer % length s.entries) s

abbrev pub size : PointerHashSet → ℕ
size s = s.num_entries

abbrev pub capacity : PointerHashSet → ℕ
capacity s = length s.entries
