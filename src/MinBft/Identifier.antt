-- ===== src/MinBft/Identifier.antt =====
-- protocols/minbft/messaging.go and stepNormal: the certificate of a message is the enclave's MAC,
-- then its counter in eight bytes, the lowest first.
use go_consensus.Base.{
  ℕ, zero, suc, ◌+◌, ◌*◌, ◌-◌, ◌/◌, ◌%◌, ◌<◌, ◌≡◌, refl, [], ◌∷◌, ◌++◌, false, arith, subst, ltb,
  if◌then◌else◌, length, length-append, Bytes, take, drop, take-append, drop-append, u64, Outcome,
  ok, fault,
}
use native.Mathlib.Nat.{add-zero}

-- binary.LittleEndian of `n` bytes.
unfoldable pub to_le : ℕ → ℕ → Bytes
to_le zero x = []
to_le (suc n) x = x % 256 ∷ to_le n (x / 256)

unfoldable pub of_le : Bytes → ℕ
of_le [] = 0
of_le (b ∷ bs) = b + 256 * of_le bs

-- marshalAndSignNormal: the counter behind the MAC.
unfoldable pub to_cert : ℕ × Bytes → Bytes
unfolding to_le
to_cert (counter, mac) = mac ++ to_le 8 counter

-- stepNormal: a certificate shorter than the counter is an index out of range.
unfoldable pub of_cert : Bytes → Outcome (ℕ × Bytes)
unfolding of_le
of_cert cert =
    let n = length cert in
    if ltb n 8 then fault else ok (of_le (drop (n - 8) cert), take (n - 8) cert)

length-to_le : (n x : ℕ) → length (to_le n x) ≡ n
unfolding to_le
length-to_le zero x = refl
length-to_le (suc n) x = omega (arith, length-to_le n (x / 256))

-- 256 ^ n.
abbrev values_of : ℕ → ℕ
values_of zero = 1
values_of (suc n) = 256 * values_of n

of_le-to_le : (n x : ℕ) → x < values_of n → of_le (to_le n x) ≡ x
unfolding of_le to_le
of_le-to_le zero x h = omega arith
of_le-to_le (suc n) x h = omega (arith, of_le-to_le n (x / 256) (omega arith))

-- What stepNormal takes out of the certificate of a message is what its sender put in, whatever the
-- length of the MAC, for every counter of 64 bits.
pub of_cert-to_cert :
    (counter : ℕ) (mac : Bytes)
    → counter < u64
    → of_cert (to_cert (counter, mac)) ≡ ok (counter, mac)
unfolding of_cert to_cert
of_cert-to_cert counter mac h =
    let size = length-append mac (to_le 8 counter) in
    let rear : length (mac ++ to_le 8 counter) - 8 ≡ length mac =
      omega (arith, size, length-to_le 8 counter) in
    let long : ltb (length (mac ++ to_le 8 counter)) 8 ≡ false =
      ground (arith, size, length-to_le 8 counter) in
    let back : drop (length mac) (mac ++ to_le 8 counter) ≡ to_le 8 counter =
      subst (λ n. drop n (mac ++ to_le 8 counter) ≡ to_le 8 counter) (add-zero (length mac))
        (drop-append (length mac) 0 mac (to_le 8 counter) refl) in
    let front : take (length mac) (mac ++ to_le 8 counter) ≡ mac =
      take-append (length mac) mac (to_le 8 counter) refl in
    rw (long, rear, back, front, of_le-to_le 8 counter h, of_cert, to_cert) refl
