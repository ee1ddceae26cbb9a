-- ===== src/Ip/V6/Hash.antt =====
-- std::hash of an address of version 6.
use senders_io.Prelude.{ℕ, ◌+◌, ◌≡◌, refl, ap, ◌∙◌, arith}
use senders_io.Ip.V6.{AddressV6, at, shift_byte, bytes_hash, combine, combine_4_bytes, hash}

shift_byte-zero : (b : ℕ) → (shift_byte b 24 ≡ 0) × (shift_byte b 16 ≡ 0) × (shift_byte b 8 ≡ 0)
shift_byte-zero b = (omega arith, omega arith, omega arith)

-- of four bytes only the last one counts
bytes_hash-last : (a b c d a' b' c' : ℕ) → bytes_hash a b c d ≡ bytes_hash a' b' c' d
unfolding bytes_hash
bytes_hash-last a b c d a' b' c' =
    rw
      (
        (shift_byte-zero a).0,
        (shift_byte-zero b).1,
        (shift_byte-zero c).2,
        (shift_byte-zero a').0,
        (shift_byte-zero b').1,
        (shift_byte-zero c').2,
      )
      refl

combine-last :
    (a b : AddressV6) (i seed : ℕ)
    → at a (i + 3) ≡ at b (i + 3)
    → combine_4_bytes a i seed ≡ combine_4_bytes b i seed
unfolding combine_4_bytes
combine-last a b i seed e = ap (combine seed) (
    bytes_hash-last (at a i) (at a (i + 1)) (at a (i + 2)) (at a (i + 3)) (at b i) (at b (i + 1))
      (at b (i + 2))
    ∙ ap (λ d. bytes_hash (at b i) (at b (i + 1)) (at b (i + 2)) d) e)

-- Two addresses that have the same scope, and the same bytes at the places 3, 7, 11 and 15, have the
-- same hash, whatever their other bytes are: these are shifted out of a std::byte.
pub hash_ignores_bytes :
    (a b : AddressV6)
    → a.scope_id ≡ b.scope_id
    → at a 3 ≡ at b 3
    → at a 7 ≡ at b 7
    → at a 11 ≡ at b 11
    → at a 15 ≡ at b 15
    → hash a ≡ hash b
unfolding hash
hash_ignores_bytes a b scope e3 e7 e11 e15 =
    ap
      (λ s.
        combine_4_bytes a 12 (combine_4_bytes a 8 (combine_4_bytes a 4 (combine_4_bytes a 0 s))))
      scope
    ∙ ap (λ s. combine_4_bytes a 12 (combine_4_bytes a 8 (combine_4_bytes a 4 s)))
        (combine-last a b 0 b.scope_id e3)
    ∙ ap (λ s. combine_4_bytes a 12 (combine_4_bytes a 8 s)) (combine-last a b 4 _ e7)
    ∙ ap (λ s. combine_4_bytes a 12 s) (combine-last a b 8 _ e11)
    ∙ combine-last a b 12 _ e15
