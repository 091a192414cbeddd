-- ===== src/Primitives/Sender.antt =====
-- src/node/primitives/transaction.rs: the sender of a system transaction, hidden in the `s` value of
-- a signature that the node makes up; and `SpotId::to_s` of src/node/spot_meta/mod.rs.
use nanoreth.Prelude.{
  ℕ, ◌+◌, ◌*◌, ◌%◌, ◌^◌, ◌<◌, ◌≡◌, ◌≢◌, refl, ap, sym, ◌∙◌, arith, ◌==◌, if◌then◌else◌, Option,
  some,
}
use nanoreth.Primitives.{Alloy, Kinds, Signature, TransactionSigned, is_system_transaction}

abbrev pub address_limit : ℕ
address_limit = 2 ^ 160

abbrev pub hype_system_address : ℕ
hype_system_address = 0x2222222222222222222222222222222222222222

abbrev pub address_one : ℕ
address_one = 1

abbrev pub address_one_s : ℕ
address_one_s = 0x10000000000000000000000000000000000000001

-- The last 20 of 32 big-endian bytes are the remainder modulo 2 ^ 160.
unfoldable pub s_to_address : ℕ → ℕ
s_to_address s =
    if s == 1
    then hype_system_address
    else if s == address_one_s
    then address_one
    else s % address_limit

unfoldable pub address_to_s : ℕ → ℕ
address_to_s addr =
    if addr == hype_system_address then 1 else if addr == address_one then address_one_s else addr

-- Byte 12 of the 32 is 0x20, and the last eight spell the index.
unfoldable pub spot_to_s : ℕ → ℕ
spot_to_s index = 0x20 * 2 ^ 152 + index % 2 ^ 64

-- The sender comes back from its encoding, for every address of 20 bytes.
pub s_to_address-address_to_s :
    (addr : ℕ) → addr < address_limit → s_to_address (address_to_s addr) ≡ addr
unfolding s_to_address address_to_s
s_to_address-address_to_s addr h = ground arith

-- The values of `s` that the node makes up.
abbrev pub IsSynthetic : ℕ → Type 0
IsSynthetic s = address_to_s (s_to_address s) ≡ s

-- Two senders of 20 bytes with one encoding are one sender.
pub address_to_s-injective :
    (a b : ℕ) → a < address_limit → b < address_limit → address_to_s a ≡ address_to_s b → a ≡ b
address_to_s-injective a b ha hb e =
    sym (s_to_address-address_to_s a ha) ∙ (ap s_to_address e ∙ s_to_address-address_to_s b hb)

pub address_to_s-IsSynthetic : (addr : ℕ) → addr < address_limit → IsSynthetic (address_to_s addr)
address_to_s-IsSynthetic addr h = ap address_to_s (s_to_address-address_to_s addr h)

pub one-IsSynthetic : IsSynthetic 1
unfolding s_to_address address_to_s
one-IsSynthetic = refl

pub spot_to_s-IsSynthetic : (index : ℕ) → IsSynthetic (spot_to_s index)
unfolding s_to_address address_to_s spot_to_s
spot_to_s-IsSynthetic index = ground arith

pub s_to_address-lt : (s : ℕ) → s_to_address s < address_limit
unfolding s_to_address
s_to_address-lt s = ground arith

-- The sender that a spot index stands for: 0x20, zeros, and the index as a 64-bit word. It is
-- neither of the two addresses with an encoding of their own.
pub s_to_address-spot_to_s :
    (index : ℕ)
    → index < 2 ^ 64
    → (s_to_address (spot_to_s index) ≡ 0x20 * 2 ^ 152 + index)
      × (s_to_address (spot_to_s index) ≢ hype_system_address)
      × (s_to_address (spot_to_s index) ≢ address_one)
unfolding s_to_address spot_to_s
s_to_address-spot_to_s index h = ground arith

unfoldable pub signature_of : {k : Kinds} → TransactionSigned k → Signature
signature_of (TransactionSigned.legacy t) = t.signature
signature_of (TransactionSigned.eip2930 t) = t.signature
signature_of (TransactionSigned.eip1559 t) = t.signature
signature_of (TransactionSigned.eip4844 t) = t.signature
signature_of (TransactionSigned.eip7702 t) = t.signature

-- `recover_signer`, and its two siblings that differ in the inner call alone. `none` is an error.
unfoldable pub recover_signer : (a : Alloy) → TransactionSigned a.kinds → Option ℕ
unfolding s_to_address signature_of is_system_transaction
recover_signer a t =
    if is_system_transaction t then some (s_to_address (signature_of t).s) else a.recover_signer t
