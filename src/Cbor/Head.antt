-- ===== src/Cbor/Head.antt =====
-- The bit masks on the initial byte of an item as arithmetic, and the initial byte of a major type.
use mathlib.Core.Path.{subst₂}
use gofast.Base.{
  ℕ, zero, suc, ◌+◌, ◌*◌, ◌/◌, ◌%◌, ◌<◌, ◌≡◌, refl, Bool, true, false, ◌≢◌, ◌∙◌, inl, inr,
  Bool-cases, if◌then◌else◌, bit_and, bit_or, ◌==◌, ==_iff, arith,
}
use gofast.Cbor.{cbor_info, cbor_hdr, cbor_major}

-- Whether two functions agree on the numbers under `count`, by running both.
agree : (count : ℕ) (f g : ℕ → ℕ) → Bool
agree zero f g = true
agree (suc count) f g = let rest = agree count f g in if f count == g count then rest else false

agree_at : (f g : ℕ → ℕ) (count : ℕ) → agree count f g ≡ true → (v : ℕ) → v < count → f v ≡ g v
unfolding agree
agree_at f g zero ran v h = absurd (omega arith)
agree_at f g (suc count) ran v h = elim (Bool-cases (f count == g count)) [
  | inr differ ↦ absurd (not_true (rw differ at ran))
  | inl same ↦ elim (Bool-cases (v == count)) [
    | inl last ↦
        let e : v ≡ count = (==_iff v count).0 last in rw e ((==_iff (f count) (g count)).0 same)
    | inr before ↦ agree_at f g count (rw same at ran) v (ground arith)
  ]
]
  where
    not_true : false ≢ true
    not_true e = cc

pub low_five : (b : ℕ) → b < 256 → bit_and b 0x1f ≡ b % 32
unfolding agree
low_five = agree_at _ _ 256 refl

pub high_three : (b : ℕ) → b < 256 → bit_and b 0xe0 ≡ b / 32 * 32
unfolding agree
high_three = agree_at _ _ 256 refl

pub join_type2 : (x : ℕ) → x < 32 → bit_or x 0x40 ≡ x + 0x40
unfolding agree
join_type2 = agree_at _ _ 32 refl

pub join_type3 : (x : ℕ) → x < 32 → bit_or x 0x60 ≡ x + 0x60
unfolding agree
join_type3 = agree_at _ _ 32 refl

pub join_type6 : (x : ℕ) → x < 32 → bit_or x 0xc0 ≡ x + 0xc0
unfolding agree
join_type6 = agree_at _ _ 32 refl

pub cbor_info-eq : (b : ℕ) → b < 256 → cbor_info b ≡ b % 32
unfolding cbor_info
cbor_info-eq b h = low_five b h

pub cbor_hdr_small : (item : ℕ) → item < 24 → cbor_hdr 0 item ≡ item
unfolding cbor_hdr agree
cbor_hdr_small = agree_at _ _ 24 refl

cbor_hdr_byte : (b : ℕ) → b < 256 → cbor_hdr (b / 32 * 32) (b % 32) ≡ b
unfolding cbor_hdr agree
cbor_hdr_byte = agree_at _ _ 256 refl

-- A header byte is the sum of its parts, and gives both back.
pub cbor_hdr_parts :
    (major info : ℕ)
    → major < 8
    → info < 32
    → (cbor_hdr (major * 32) info ≡ major * 32 + info)
      × (cbor_major (cbor_hdr (major * 32) info) ≡ major * 32)
      × (cbor_info (cbor_hdr (major * 32) info) ≡ info)
unfolding cbor_major
cbor_hdr_parts major info h k =
    let b = major * 32 + info in
    let quotient : b / 32 ≡ major = omega arith in
    let remainder : b % 32 ≡ info = omega arith in
    let made : cbor_hdr (major * 32) info ≡ b =
      subst₂ (λ (q r : ℕ). cbor_hdr (q * 32) r ≡ b) quotient remainder
        (cbor_hdr_byte b (omega arith)) in
    rw made
      (refl, high_three b (omega arith) ∙ omega arith, cbor_info-eq b (omega arith) ∙ remainder)
