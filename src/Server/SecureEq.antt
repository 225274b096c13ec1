-- ===== src/Server/SecureEq.antt =====
-- `secure_eq` of crates/c6-server/src/main.rs: a comparison that reads all bytes of both texts.
use Prim.Native.Nat.{bit_or, bit_xor, bit_or-bitwise, bit_xor-bitwise, digits, differ, max}
use cresix.Base.{
  ℕ, zero, suc, ◌/◌, ◌%◌, ◌≤◌, ◌≡◌, ◌↔◌, [], ◌∷◌, Bool, true, false, not, ◌==◌, length, arith, refl,
  sym, ap, if◌then◌else◌, Bool-cases, inl, inr, ==_iff,
}
use cresix.Base.Text.{Text}

-- `a.bytes().zip(b.bytes()).fold(d, |d, (x, y)| d | (x ^ y))`
unfoldable pub difference : ℕ → Text → Text → ℕ
difference d [] b = d
difference d (x ∷ a) [] = d
difference d (x ∷ a) (y ∷ b) = difference (bit_or d (bit_xor x y)) a b

unfoldable pub secure_eq : Text → Text → Bool
secure_eq a b = if not (length a == length b) then false else difference 0 a b == 0

differ_zero : (x y : ℕ) → (differ x y ≡ 0) ↔ (x ≡ y)
differ_zero zero y = (λ h. sym h, λ h. sym h)
differ_zero (suc x) zero = (λ h. absurd (omega (arith, h)), λ h. absurd (omega (arith, h)))
differ_zero (suc x) (suc y) =
    let (to, from) = differ_zero x y in (λ h. ap suc (to h), λ h. from (omega (arith, h)))

xor_digits : (n a b : ℕ) → a ≤ n → (digits (λ c. c) differ n a b ≡ 0) ↔ (a ≡ b)
xor_digits zero a b h = (λ e. omega (arith, e), λ e. omega (arith, e))
xor_digits (suc n) zero b h = (λ e. sym e, λ e. sym e)
xor_digits (suc n) (suc a) b h =
    let (to, from) = xor_digits n (suc a / 2) (b / 2) (omega arith) in
    let (same, back) = differ_zero (suc a % 2) (b % 2) in
    (
      λ e.
          let high = to (omega (arith, e)) in
          let low = same (omega (arith, e)) in omega (arith, high, low),
      λ e.
          let high = from (ap (λ c. c / 2) e) in
          let low = back (ap (λ c. c % 2) e) in omega (arith, high, low),
    )

or_digits : (n a b : ℕ) → a ≤ n → (digits (λ c. c) max n a b ≡ 0) ↔ ((a ≡ 0) × (b ≡ 0))
or_digits zero a b h = (λ e. (omega (arith, e), e), λ e. e.1)
or_digits (suc n) zero b h = (λ e. (refl, e), λ e. e.1)
or_digits (suc n) (suc a) b h =
    let (to, from) = or_digits n (suc a / 2) (b / 2) (omega arith) in
    (
      λ e. let high = to (omega (arith, e)) in absurd (omega (arith, high.0, e)),
      λ e. absurd (omega (arith, e.0)),
    )

xor_zero : (a b : ℕ) → (bit_xor a b ≡ 0) ↔ (a ≡ b)
xor_zero a b = rw (bit_xor-bitwise a b) (xor_digits a a b (omega arith))

or_zero : (a b : ℕ) → (bit_or a b ≡ 0) ↔ ((a ≡ 0) × (b ≡ 0))
or_zero a b = rw (bit_or-bitwise a b) (or_digits a a b (omega arith))

cons_inj : {x y : ℕ} {a b : Text} → (x ∷ a) ≡ (y ∷ b) → (x ≡ y) × (a ≡ b)
cons_inj h = (cc, cc)

different : (a b : Text) → a ≡ b → (length a == length b) ≡ false → ⊥
different a b h apart = ground (arith, ap length h)

difference_zero :
    (d : ℕ) (a b : Text) → length a ≡ length b → (difference d a b ≡ 0) ↔ ((d ≡ 0) × (a ≡ b))
unfolding difference
difference_zero d [] [] same = (λ h. (h, refl), λ h. h.0)
difference_zero d [] (y ∷ b) same = absurd (omega (arith, same))
difference_zero d (x ∷ a) [] same = absurd (omega (arith, same))
difference_zero d (x ∷ a) (y ∷ b) same =
    let (to, from) = difference_zero (bit_or d (bit_xor x y)) a b (omega (arith, same)) in
    let (apart, together) = or_zero d (bit_xor x y) in
    let (equal, back) = xor_zero x y in
    (
      λ h.
          let (digits_zero, tails) = to h in
          let (none_before, none_here) = apart digits_zero in
          (none_before, cc (equal none_here, tails)),
      λ h. let (heads, tails) = cons_inj h.1 in from (together (h.0, back heads), tails),
    )

-- The comparison that reads every byte agrees with equality of texts.
pub secure_eq_iff : (a b : Text) → (secure_eq a b ≡ true) ↔ (a ≡ b)
unfolding secure_eq
secure_eq_iff a b = elim (Bool-cases (length a == length b)) [
  | inr apart ↦ (λ h. absurd (ground arith), λ h. absurd (different a b h apart))
  | inl same ↦
      let (to, from) = difference_zero 0 a b (ground arith) in
      rw same (
        λ h. (to ((==_iff (difference 0 a b) 0).0 h)).1,
        λ h. (==_iff (difference 0 a b) 0).1 (from (refl, h)),
      )
]
