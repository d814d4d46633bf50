-- ===== src/State/Layout.antt =====
-- state.rs: the layout of the structs under `repr(C)`, and the account sizes `LEN`. Rust aligns a
-- u128 to 8 or to 16 bytes, by target and by version of the compiler, so that is a parameter.
use mm_staking.Base.{
  ℕ, ◌+◌, ◌-◌, ◌*◌, ◌/◌, ◌≡◌, ◌⊎◌, inl, inr, refl, List, [], ◌∷◌, leb, if◌then◌else◌,
}
use mm_staking.State.{max_rewards}

-- A field: how many bytes, and the multiple at which it must stand.
abbrev pub Field : Type 0
Field = ℕ × ℕ

abbrev pub pubkey : Field
pubkey = (32, 1)

abbrev pub u128 : ℕ → Field
u128 alignment = (16, alignment)

-- A u64 or an i64.
abbrev pub word : Field
word = (8, 8)

-- `[u8; n]`.
abbrev pub bytes : ℕ → Field
bytes n = (n, 1)

-- The least multiple of the alignment that is not below the offset.
abbrev pub round_up : ℕ → ℕ → ℕ
round_up offset alignment = (offset + (alignment - 1)) / alignment * alignment

-- Where the fields end that are placed from an offset on.
abbrev pub end_of : ℕ → List Field → ℕ
end_of offset [] = offset
end_of offset ((size, alignment) ∷ fields) = end_of (round_up offset alignment + size) fields

abbrev pub align_of : List Field → ℕ
align_of [] = 1
align_of ((size, alignment) ∷ fields) =
    let rest = align_of fields in if leb rest alignment then alignment else rest

abbrev pub size_of : List Field → ℕ
size_of fields = round_up (end_of 0 fields) (align_of fields)

-- The bytes of the fields alone.
abbrev pub bytes_of : List Field → ℕ
bytes_of [] = 0
bytes_of ((size, alignment) ∷ fields) = size + bytes_of fields

-- `[T; n]` of a struct.
abbrev pub array_of : List Field → ℕ → Field
array_of fields n = (size_of fields * n, align_of fields)

abbrev pub reward_info_fields : ℕ → List Field
reward_info_fields a =
    pubkey ∷ pubkey ∷ u128 a ∷ u128 a ∷ word ∷ word ∷ word ∷ bytes 1 ∷ bytes 7 ∷ []

abbrev pub reward_entry_fields : ℕ → List Field
reward_entry_fields a = u128 a ∷ word ∷ bytes 8 ∷ []

abbrev pub pool_fields : ℕ → List Field
pool_fields a =
    pubkey
    ∷ pubkey
    ∷ pubkey
    ∷ pubkey
    ∷ word
    ∷ word
    ∷ bytes 1
    ∷ bytes 1
    ∷ bytes 1
    ∷ bytes 13
    ∷ array_of (reward_info_fields a) max_rewards
    ∷ []

abbrev pub staker_account_fields : ℕ → List Field
staker_account_fields a =
    pubkey ∷ pubkey ∷ word ∷ bytes 1 ∷ bytes 7 ∷ array_of (reward_entry_fields a) max_rewards ∷ []

-- `Pool::LEN`.
abbrev pub pool_len : ℕ
pool_len = 8 + 32 + 32 + 32 + 32 + 8 + 8 + 1 + 1 + 1 + 13 + 128 * max_rewards

-- `StakerAccount::LEN`.
abbrev pub staker_account_len : ℕ
staker_account_len = 8 + 32 + 32 + 8 + 1 + 7 + 32 * max_rewards

-- The compiler adds no padding between the fields or after them.
abbrev pub IsPacked : List Field → Type 0
IsPacked fields = size_of fields ≡ bytes_of fields

-- Where a u128 is aligned to 8 or to 16 bytes, the four structs have no padding but what their
-- fields declare, and the account sizes `LEN` are the sizes of the pool and of the staker's account
-- and the eight bytes of the discriminator.
pub layout-IsPacked :
    (a : ℕ)
    → (a ≡ 8) ⊎ (a ≡ 16)
    → IsPacked (reward_info_fields a)
      × IsPacked (reward_entry_fields a)
      × IsPacked (pool_fields a)
      × IsPacked (staker_account_fields a)
      × (8 + size_of (pool_fields a) ≡ pool_len)
      × (8 + size_of (staker_account_fields a) ≡ staker_account_len)
layout-IsPacked a (inl e) = rw e (refl, refl, refl, refl, refl, refl)
layout-IsPacked a (inr e) = rw e (refl, refl, refl, refl, refl, refl)
