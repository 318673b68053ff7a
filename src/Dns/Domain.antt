-- ===== src/Dns/Domain.antt =====
-- The comparison of domain names of src/dnsd/dns_static.c and src/dnsd/dns_cache.c, which write it out
-- twice, and the copy of a name into a record. A name is the bytes of a C string, which a zero byte or the
-- end of the list ends.
use fastrg_node.Base.{
  ℕ, zero, suc, ◌≤◌, ◌≡◌, ◌≢◌, refl, sym, ◌∙◌, ap, List, [], ◌∷◌, Bool, true, false, ◌||◌, ◌==◌,
  ne→==, if◌then◌else◌, length, take, Bool-cases, inl, inr, arith,
}
use fastrg_node.Dns.Name.{domain_to_lower, max_domain_len}

-- static_domain_eq and domain_eq.
unfoldable pub domain_eq : (ℕ → ℕ) → List ℕ → List ℕ → Bool
domain_eq tolower [] [] = true
domain_eq tolower [] (b ∷ ys) = b == 0
domain_eq tolower (a ∷ xs) [] = a == 0
domain_eq tolower (a ∷ xs) (b ∷ ys) =
    let rest = domain_eq tolower xs ys in
    if a == 0 || b == 0 then a == b else if tolower a == tolower b then rest else false

-- strncpy into a buffer of 254 bytes that is ended with a zero, and dns_domain_to_lower.
unfoldable pub store_domain : (ℕ → ℕ) → List ℕ → List ℕ
store_domain tolower domain = domain_to_lower tolower (take max_domain_len domain)

-- What the C library's tolower satisfies in the "C" locale.
pub record IsTolower (tolower : ℕ → ℕ) : Type 0 where
  pub again : (c : ℕ) → tolower (tolower c) ≡ tolower c
  pub no_end : (c : ℕ) → c ≢ 0 → tolower c ≢ 0

-- The bytes that a comparison goes by.
unfoldable pub key : (ℕ → ℕ) → List ℕ → List ℕ
key tolower [] = []
key tolower (c ∷ cs) = let rest = key tolower cs in if c == 0 then [] else tolower c ∷ rest

keys_eq : List ℕ → List ℕ → Bool
keys_eq [] [] = true
keys_eq [] (y ∷ ys) = false
keys_eq (x ∷ xs) [] = false
keys_eq (x ∷ xs) (y ∷ ys) = let rest = keys_eq xs ys in if x == y then rest else false

keys_eq_sound : (xs ys : List ℕ) → keys_eq xs ys ≡ true → xs ≡ ys
unfolding keys_eq
keys_eq_sound [] [] h = refl
keys_eq_sound [] (y ∷ ys) h = ground (arith, h)
keys_eq_sound (x ∷ xs) [] h = ground (arith, h)
keys_eq_sound (x ∷ xs) (y ∷ ys) h = ground (arith, h, keys_eq_sound xs ys)

keys_eq_refl : (xs : List ℕ) → keys_eq xs xs ≡ true
unfolding keys_eq
keys_eq_refl [] = refl
keys_eq_refl (x ∷ xs) = ground (arith, keys_eq_refl xs)

-- The comparison compares the keys.
domain_eq-key :
    (tolower : ℕ → ℕ) (a b : List ℕ)
    → domain_eq tolower a b ≡ keys_eq (key tolower a) (key tolower b)
unfolding domain_eq key keys_eq
domain_eq-key tolower [] [] = refl
domain_eq-key tolower [] (b ∷ ys) = ground arith
domain_eq-key tolower (a ∷ xs) [] = ground arith
domain_eq-key tolower (a ∷ xs) (b ∷ ys) = ground (arith, domain_eq-key tolower xs ys)

pub key-domain_eq :
    (tolower : ℕ → ℕ) (a b : List ℕ) → domain_eq tolower a b ≡ true → key tolower a ≡ key tolower b
key-domain_eq tolower a b h = keys_eq_sound _ _ (sym (domain_eq-key tolower a b) ∙ h)

pub domain_eq_refl : (tolower : ℕ → ℕ) (a : List ℕ) → domain_eq tolower a a ≡ true
domain_eq_refl tolower a = domain_eq-key tolower a a ∙ keys_eq_refl (key tolower a)

-- Equal names compare alike with every other.
pub domain_eq_left :
    (tolower : ℕ → ℕ) (a b c : List ℕ)
    → domain_eq tolower a b ≡ true
    → domain_eq tolower a c ≡ domain_eq tolower b c
domain_eq_left tolower a b c h =
    rw (domain_eq-key tolower a c, domain_eq-key tolower b c, key-domain_eq tolower a b h) refl

pub domain_eq_right :
    (tolower : ℕ → ℕ) (a b c : List ℕ)
    → domain_eq tolower a b ≡ true
    → domain_eq tolower c a ≡ domain_eq tolower c b
domain_eq_right tolower a b c h =
    rw (domain_eq-key tolower c a, domain_eq-key tolower c b, key-domain_eq tolower a b h) refl

key-domain_to_lower :
    {tolower : ℕ → ℕ} (s : List ℕ)
    → IsTolower tolower
    → key tolower (domain_to_lower tolower s) ≡ key tolower s
unfolding key domain_to_lower
key-domain_to_lower [] t = refl
key-domain_to_lower {tolower = tolower} (c ∷ cs) t = elim (Bool-cases (c == 0)) [
  | inl e ↦ rw (e, e) refl
  | inr e ↦
      let e' : (tolower c == 0) ≡ false =
        ne→== (tolower c) 0 (t.no_end c (λ z. ground (arith, e, z))) in
      rw (e, e', t.again c, key-domain_to_lower cs t) refl
]

take_all : (n : ℕ) (xs : List ℕ) → length xs ≤ n → take n xs ≡ xs
take_all zero [] h = refl
take_all zero (x ∷ xs) h = absurd (omega arith)
take_all (suc n) [] h = refl
take_all (suc n) (x ∷ xs) h = ap (λ t. x ∷ t) (take_all n xs (omega arith))

-- The copy of a name that fits compares as the name does.
pub domain_eq-store_domain :
    {tolower : ℕ → ℕ} (d : List ℕ)
    → IsTolower tolower
    → length d ≤ 253
    → (c : List ℕ) → domain_eq tolower (store_domain tolower d) c ≡ domain_eq tolower d c
unfolding store_domain
domain_eq-store_domain {tolower = tolower} d t fits c =
    rw
      (
        domain_eq-key tolower (domain_to_lower tolower (take 253 d)) c,
        domain_eq-key tolower d c,
        take_all 253 d fits,
        key-domain_to_lower d t,
      )
      refl
