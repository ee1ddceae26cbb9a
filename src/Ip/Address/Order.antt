-- ===== src/Ip/Address/Order.antt =====
-- operator< of addresses is a strict total order, which goes with operator==.
use senders_io.Prelude.{
  ==-self, ℕ, ◌≡◌, refl, sym, ap, ◌∙◌, ◌⊎◌, ◌≢◌, inl, inr, true, false, none, some, List, [], ◌∷◌,
  arith, ltb, ◌==◌, ==_iff, Bool-cases, Option-cases, length,
}
use senders_io.Ip.V4
use senders_io.Ip.V4.{AddressV4}
use senders_io.Ip.V6
use senders_io.Ip.V6.{AddressV6, address_v6, memcmp, if_same, less_first}
use senders_io.Ip.Address.{Address, v4, v6, eq, lt}

memcmp-none : (xs ys : List ℕ) → length xs ≡ length ys → memcmp xs ys ≡ none → xs ≡ ys
memcmp-none [] [] len e = refl
memcmp-none [] (y ∷ ys) len e = absurd (omega arith)
memcmp-none (x ∷ xs) [] len e = absurd (omega arith)
memcmp-none (x ∷ xs) (y ∷ ys) len e = elim (Bool-cases (x == y)) [
  | inl same ↦ rw ((==_iff x y).0 same, memcmp-none xs ys (omega arith) (ground (arith, e, same)))
  | inr ne ↦ absurd (ground (arith, e, ne))
]

memcmp_self : (xs : List ℕ) → memcmp xs xs ≡ none
memcmp_self [] = refl
memcmp_self (x ∷ xs) = rw (==-self x) (memcmp_self xs)

memcmp-swap :
    (xs ys : List ℕ) → length xs ≡ length ys → memcmp ys xs ≡ some true → memcmp xs ys ≡ some false
memcmp-swap [] [] len e = absurd (ground (arith, e))
memcmp-swap [] (y ∷ ys) len e = absurd (omega arith)
memcmp-swap (x ∷ xs) [] len e = absurd (omega arith)
memcmp-swap (x ∷ xs) (y ∷ ys) len e = ground (arith, memcmp-swap xs ys)

memcmp-more :
    (xs ys : List ℕ) → length xs ≡ length ys → memcmp xs ys ≡ some false → memcmp ys xs ≡ some true
memcmp-more [] ys len e = absurd (ground (arith, e))
memcmp-more (x ∷ xs) [] len e = absurd (omega arith)
memcmp-more (x ∷ xs) (y ∷ ys) len e = ground (arith, memcmp-more xs ys)

memcmp_trans :
    (xs ys zs : List ℕ)
    → memcmp xs ys ≡ some true
    → memcmp ys zs ≡ some true
    → memcmp xs zs ≡ some true
memcmp_trans [] ys zs e f = absurd (ground (arith, e))
memcmp_trans (x ∷ xs) [] zs e f = absurd (ground (arith, e))
memcmp_trans (x ∷ xs) (y ∷ ys) [] e f = absurd (ground (arith, f))
memcmp_trans (x ∷ xs) (y ∷ ys) (z ∷ zs) e f = ground (arith, memcmp_trans xs ys zs)

-- what std::array says of the bytes
abbrev pub HasSize : Address → Type 0
HasSize (v4 a) = Unit {0}
HasSize (v6 a) = length a.bytes ≡ 16

module _ (a b : AddressV6) where
  lt_less : memcmp a.bytes b.bytes ≡ some true → V6.lt a b ≡ true
  unfolding V6.lt
  lt_less e = ap (λ m. less_first m (ltb a.scope_id b.scope_id)) e

  lt_same : a.bytes ≡ b.bytes → ltb a.scope_id b.scope_id ≡ true → V6.lt a b ≡ true
  unfolding V6.lt
  lt_same e f =
      ap (λ m. less_first m (ltb a.scope_id b.scope_id))
        (ap (λ l. memcmp l b.bytes) e ∙ memcmp_self b.bytes)
      ∙ f

module _ (a b : AddressV6) (len : length a.bytes ≡ length b.bytes) where
  v6_less :
      V6.lt a b ≡ true
      → (memcmp a.bytes b.bytes ≡ some true)
        ⊎ ((a.bytes ≡ b.bytes) × (ltb a.scope_id b.scope_id ≡ true))
  unfolding V6.lt
  v6_less h = elim (Option-cases (memcmp a.bytes b.bytes)) [
    | inl e ↦ inr (
      memcmp-none a.bytes b.bytes len e,
      sym (ap (λ m. less_first m (ltb a.scope_id b.scope_id)) e) ∙ h,
    )
    | inr (less, e) ↦
        inl (e ∙ ap some (sym (ap (λ m. less_first m (ltb a.scope_id b.scope_id)) e) ∙ h))
  ]

  v6_total : (V6.lt a b ≡ true) ⊎ ((V6.eq a b ≡ true) × (a ≡ b)) ⊎ (V6.lt b a ≡ true)
  unfolding V6.eq
  v6_total = elim (Option-cases (memcmp a.bytes b.bytes)) [
    | inl e ↦ by_scope e (memcmp-none a.bytes b.bytes len e)
    | inr (true, e) ↦ inl (lt_less a b e)
    | inr (false, e) ↦ inr (inr (lt_less b a (memcmp-more a.bytes b.bytes len e)))
  ]
    where
      by_scope :
          memcmp a.bytes b.bytes ≡ none
          → a.bytes ≡ b.bytes
          → (V6.lt a b ≡ true) ⊎ ((V6.eq a b ≡ true) × (a ≡ b)) ⊎ (V6.lt b a ≡ true)
      by_scope e same = elim (Bool-cases (ltb a.scope_id b.scope_id)) [
        | inl less ↦ inl (lt_same a b same less)
        | inr ge ↦ elim (Bool-cases (ltb b.scope_id a.scope_id)) [
          | inl more ↦ inr (inr (lt_same b a (sym same) more))
          | inr le ↦ inr (
              inl (
                ap (λ m. if_same m (a.scope_id == b.scope_id) false) e ∙ ground (arith, ge, le),
                λ i. address_v6 (same i) (scopes ge le i),
              ))
        ]
      ]
        where
          scopes :
              ltb a.scope_id b.scope_id ≡ false
              → ltb b.scope_id a.scope_id ≡ false
              → a.scope_id ≡ b.scope_id
          scopes ge le = ground (arith, ge, le)

v6_trans :
    (a b c : AddressV6)
    → length a.bytes ≡ length b.bytes
    → length b.bytes ≡ length c.bytes
    → V6.lt a b ≡ true
    → V6.lt b c ≡ true
    → V6.lt a c ≡ true
v6_trans a b c p q h k = elim (v6_less a b p h) [
  | inl ab ↦ elim (v6_less b c q k) [
    | inl bc ↦ lt_less a c (memcmp_trans a.bytes b.bytes c.bytes ab bc)
    | inr (bc, _) ↦ lt_less a c (ap (λ l. memcmp a.bytes l) (sym bc) ∙ ab)
  ]
  | inr (ab, less) ↦ elim (v6_less b c q k) [
    | inl bc ↦ lt_less a c (ap (λ l. memcmp l c.bytes) ab ∙ bc)
    | inr (bc, more) ↦ lt_same a c (ab ∙ bc) (ground (arith, less, more))
  ]
]

v6_irrefl : (a : AddressV6) → V6.lt a a ≡ false
unfolding V6.lt
v6_irrefl a =
    ap (λ m. less_first m (ltb a.scope_id a.scope_id)) (memcmp_self a.bytes) ∙ ground arith

lt-or_eq :
    (a b : Address)
    → HasSize a
    → HasSize b
    → (lt a b ≡ true) ⊎ ((eq a b ≡ true) × (a ≡ b)) ⊎ (lt b a ≡ true)
unfolding lt eq V4.lt V4.eq
lt-or_eq (v4 a) (v4 b) p q = elim (Bool-cases (ltb a.addr b.addr)) [
  | inl less ↦ inl less
  | inr ge ↦ elim (Bool-cases (ltb b.addr a.addr)) [
    | inl more ↦ inr (inr more)
    | inr le ↦ inr (inl (ground (arith, ge, le), λ i. v4 (V4.address_v4 (same ge le i))))
  ]
]
  where
    same : ltb a.addr b.addr ≡ false → ltb b.addr a.addr ≡ false → a.addr ≡ b.addr
    same ge le = ground (arith, ge, le)
lt-or_eq (v4 a) (v6 b) p q = inl refl
lt-or_eq (v6 a) (v4 b) p q = inr (inr refl)
lt-or_eq (v6 a) (v6 b) p q = elim (v6_total a b (p ∙ sym q)) [
  | inl less ↦ inl less
  | inr (inl (e, same)) ↦ inr (inl (e, ap v6 same))
  | inr (inr more) ↦ inr (inr more)
]

-- The order is transitive, and an address is not less than one that is less than it.
lt_is_strict :
    (a b c : Address)
    → HasSize a
    → HasSize b
    → HasSize c
    → lt a b ≡ true
    → lt b c ≡ true
    → (lt a c ≡ true) × (lt b a ≡ false)
unfolding lt V4.lt
lt_is_strict (v4 a) (v4 b) (v4 c) p q r h k = (ground (arith, h, k), ground (arith, h))
lt_is_strict (v4 a) (v4 b) (v6 c) p q r h k = (refl, ground (arith, h))
lt_is_strict (v4 a) (v6 b) (v4 c) p q r h k = absurd (ground (arith, k))
lt_is_strict (v4 a) (v6 b) (v6 c) p q r h k = (refl, refl)
lt_is_strict (v6 a) (v4 b) c p q r h k = absurd (ground (arith, h))
lt_is_strict (v6 a) (v6 b) (v4 c) p q r h k = absurd (ground (arith, k))
lt_is_strict (v6 a) (v6 b) (v6 c) p q r h k = (
  v6_trans a b c (p ∙ sym q) (q ∙ sym r) h k,
  elim (Bool-cases (V6.lt b a)) [
    | inl more ↦ cc (v6_trans a b a (p ∙ sym q) (q ∙ sym p) h more, v6_irrefl a)
    | inr le ↦ le
  ],
)

lt_irrefl : (a : Address) → lt a a ≡ false
unfolding lt V4.lt
lt_irrefl (v4 a) = ground arith
lt_irrefl (v6 a) = v6_irrefl a

-- Of two addresses just one of three holds: the first is less, or they are the same address and
-- compare equal, or the second is less. And of three addresses the first is
-- less than the last if it is less than the second and that is less than the last.
pub lt_is_total :
    (a b c : Address)
    → HasSize a
    → HasSize b
    → HasSize c
    → (((lt a b ≡ true) × (lt b a ≡ false) × (a ≢ b))
        ⊎ ((lt a b ≡ false) × (lt b a ≡ false) × (eq a b ≡ true) × (a ≡ b))
        ⊎ ((lt b a ≡ true) × (lt a b ≡ false) × (a ≢ b)))
      × (lt a b ≡ true → lt b c ≡ true → lt a c ≡ true)
lt_is_total a b c p q r = (
  elim (lt-or_eq a b p q) [
    | inl less ↦ inl (less, asym a b p q less, differ a b less)
    | inr (inl (e, same)) ↦ inr (
        inl (
          ap (λ x. lt a x) (sym same) ∙ lt_irrefl a,
          ap (λ x. lt x a) (sym same) ∙ lt_irrefl a,
          e,
          same,
        ))
    | inr (inr more) ↦ inr (inr (more, asym b a q p more, λ e. differ b a more (sym e)))
  ],
  (λ h k. (lt_is_strict a b c p q r h k).0),
)
  where
    asym : (x y : Address) → HasSize x → HasSize y → lt x y ≡ true → lt y x ≡ false
    asym x y u v less = elim (Bool-cases (lt y x)) [
      | inl more ↦ (lt_is_strict x y x u v u less more).1
      | inr le ↦ le
    ]

    differ : (x y : Address) → lt x y ≡ true → x ≢ y
    differ x y less e = absurd (cc (ap (λ z. lt x z) e, less, lt_irrefl x))
