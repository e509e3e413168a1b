-- ===== src/Idempotency/Slots.antt =====
-- The unique key of `idempotency_records`: the slot of a scope, an operation and a key's hash.
use lawyer_agent.Prelude.{
  ℕ, ◌≡◌, refl, Bool, true, false, ◌&&◌, String, List, [], ◌∷◌, ◌==◌, arith, str_eq, eq_iff,
}
use lawyer_agent.Common.{Uuid}
use lawyer_agent.JobStore.Inbox.{same_bytes}
use lawyer_agent.Idempotency.Types.{IdempotencyScopeType, user, membership, platform}

pub record Slot : Type 0 where
  pub scope_type : IdempotencyScopeType
  pub scope_id : Uuid
  pub operation : String
  pub key_hash : List ℕ

abbrev pub same_scope_type : IdempotencyScopeType → IdempotencyScopeType → Bool
same_scope_type user user = true
same_scope_type membership membership = true
same_scope_type platform platform = true
same_scope_type _ _ = false

unfoldable pub same_slot : Slot → Slot → Bool
same_slot a b =
    same_scope_type a.scope_type b.scope_type
    && a.scope_id == b.scope_id
    && str_eq a.operation b.operation
    && same_bytes a.key_hash b.key_hash

pub same_bytes→eq : (xs ys : List ℕ) → same_bytes xs ys ≡ true → xs ≡ ys
same_bytes→eq [] [] e = refl
same_bytes→eq [] (y ∷ ys) e = cc
same_bytes→eq (x ∷ xs) [] e = cc
same_bytes→eq (x ∷ xs) (y ∷ ys) e = ground (arith, same_bytes→eq xs ys)

pub same_bytes_refl : (xs : List ℕ) → same_bytes xs xs ≡ true
same_bytes_refl [] = refl
same_bytes_refl (x ∷ xs) = ground (arith, same_bytes_refl xs)

same_scope_type→eq : (a b : IdempotencyScopeType) → same_scope_type a b ≡ true → a ≡ b
same_scope_type→eq user user e = refl
same_scope_type→eq membership membership e = refl
same_scope_type→eq platform platform e = refl
same_scope_type→eq user membership e = cc
same_scope_type→eq user platform e = cc
same_scope_type→eq membership user e = cc
same_scope_type→eq membership platform e = cc
same_scope_type→eq platform user e = cc
same_scope_type→eq platform membership e = cc

pub same_scope_type_refl : (a : IdempotencyScopeType) → same_scope_type a a ≡ true
same_scope_type_refl user = refl
same_scope_type_refl membership = refl
same_scope_type_refl platform = refl

pub same_slot→eq : (a b : Slot) → same_slot a b ≡ true → a ≡ b
unfolding same_slot
same_slot→eq a b e = ground (
  arith,
  same_scope_type→eq a.scope_type b.scope_type,
  eq_iff a.operation b.operation,
  same_bytes→eq a.key_hash b.key_hash,
)

pub same_slot_refl : (a : Slot) → same_slot a a ≡ true
unfolding same_slot
same_slot_refl a = ground (
  arith,
  same_scope_type_refl a.scope_type,
  eq_iff a.operation a.operation,
  same_bytes_refl a.key_hash,
)

pub ==_refl : (n : ℕ) → (n == n) ≡ true
==_refl n = ground arith
