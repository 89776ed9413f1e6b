-- ===== src/Evidence/HashChain/Framing.antt =====
-- What can be read back from the bytes that `compute_digest` hashes.
use vuln_proof_claw.Common.{
  ℕ, ◌<◌, Bool, true, false, ◌≡◌, refl, ◌⊎◌, inl, inr, Option, none, some, List, [], ◌∷◌, ◌++◌,
  arith, length, all, is_hex, codes, String, ap, ◌∙◌, sym, is_sha256, nat_beq, and_left, and_right,
  nat_beq_iff, ltb, ltb→lt, if◌then◌else◌,
}
use vuln_proof_claw.Common.Results.{ok, err, >>=-eq-ok}
use vuln_proof_claw.Evidence.{EvidenceError, Keeps, has_form}
use vuln_proof_claw.Evidence.Bytes.{
  to_bytes, join, limit, append-split, length-to_bytes, to_bytes_inj, codes_inj, from_hex_inj,
  length-from_hex,
}
use vuln_proof_claw.Evidence.HashChain.{
  domain_separator, genesis_digest, or_value_error, previous_bytes, length_bytes, framed,
}

pub sha256-codes :
    (digest : String)
    → is_sha256 digest ≡ true
    → (length (codes digest) ≡ 64) × (all is_hex (codes digest) ≡ true)
unfolding is_sha256
sha256-codes digest h = (
  (nat_beq_iff (length (codes digest)) 64).0 (and_left (nat_beq (length (codes digest)) 64) _ h),
  and_right (nat_beq (length (codes digest)) 64) _ h,
)

or_value_error-ok : {A : Type 0} (o : Option A) {a : A} → or_value_error o ≡ ok a → o ≡ some a
or_value_error-ok none h = cc
or_value_error-ok (some a) h = ground arith

length-previous_bytes :
    (p : Option String) {bytes : List ℕ}
    → has_form p ≡ true
    → previous_bytes p ≡ ok bytes
    → length bytes ≡ 32
unfolding previous_bytes
length-previous_bytes none {bytes = bytes} h e =
    let same : bytes ≡ genesis_digest = ground arith in ap length same
length-previous_bytes (some digest) h e =
    let (size, hex) = sha256-codes digest h in
    omega (arith, size, length-from_hex (codes digest) hex (or_value_error-ok _ e))

-- Two digests that give the same bytes are the same.
pub same_digest :
    (d d' : String) {bytes : List ℕ}
    → is_sha256 d ≡ true
    → is_sha256 d' ≡ true
    → previous_bytes (some d) ≡ ok bytes
    → previous_bytes (some d') ≡ ok bytes
    → d ≡ d'
unfolding previous_bytes
same_digest d d' h h' e f = codes_inj d d' (
    from_hex_inj (codes d) (codes d') (sha256-codes d h).1 (sha256-codes d' h').1
      (or_value_error-ok _ e) (or_value_error-ok _ f))

-- Two links of one form that give the same bytes are the same, or the bytes are those of no link.
same_previous :
    (p q : Option String) {bytes : List ℕ}
    → has_form p ≡ true
    → has_form q ≡ true
    → previous_bytes p ≡ ok bytes
    → previous_bytes q ≡ ok bytes
    → (p ≡ q) ⊎ (bytes ≡ genesis_digest)
unfolding previous_bytes
same_previous none q hp hq e f = inr (ground arith)
same_previous (some d) none hp hq e f = inr (ground arith)
same_previous (some d) (some d') hp hq e f = inl (ap some (same_digest d d' hp hq e f))

ok-injective : {xs ys : List ℕ} → ◌≡◌ {A = Keeps (List ℕ)} (ok xs) (ok ys) → xs ≡ ys
ok-injective h = cc h

if-ok :
    (b : Bool) (e : EvidenceError) {xs ys : List ℕ}
    → (if b then ok xs else err e) ≡ ok ys
    → (b ≡ true) × (ys ≡ xs)
if-ok true e h = (refl, ground arith)
if-ok false e h = cc

length_bytes-ok :
    (xs : List ℕ) {bytes : List ℕ}
    → length_bytes xs ≡ ok bytes
    → (length xs < limit 8) × (bytes ≡ to_bytes 8 (length xs))
unfolding length_bytes
length_bytes-ok xs h =
    let (fits, made) = if-ok (ltb (length xs) (limit 8)) _ h in
    (ltb→lt (length xs) (limit 8) fits, made)

-- Texts of numbers of bytes: a length and the bytes, and what follows, are told apart.
sized-split :
    (xs ys us vs : List ℕ)
    → length xs < limit 8
    → length ys < limit 8
    → to_bytes 8 (length xs) ++ (xs ++ us) ≡ to_bytes 8 (length ys) ++ (ys ++ vs)
    → (xs ≡ ys) × (us ≡ vs)
sized-split xs ys us vs hx hy h =
    let (sizes, rest) =
      append-split (to_bytes 8 (length xs)) (to_bytes 8 (length ys))
        (length-to_bytes 8 (length xs) ∙ sym (length-to_bytes 8 (length ys))) h in
    append-split xs ys (to_bytes_inj 8 (length xs) (length ys) hx hy sizes) rest

-- What is hashed, as it is joined.
abbrev payload_of : (previous size_m m size_r r : List ℕ) → List ℕ
payload_of previous size_m m size_r r =
    join (domain_separator ∷ previous ∷ size_m ∷ m ∷ size_r ∷ r ∷ [])

-- The parts of a framing.
record Parts (p : Option String) (m r payload : List ℕ) : Type 0 where
  previous : List ℕ
  linked : previous_bytes p ≡ ok previous
  metadata_fits : length m < limit 8
  content_fits : length r < limit 8
  payload_is : payload ≡ payload_of previous (to_bytes 8 (length m)) m (to_bytes 8 (length r)) r

joined :
    (previous m r size_m size_r encoded_m encoded_r : List ℕ) {payload : List ℕ}
    → size_m ≡ encoded_m
    → size_r ≡ encoded_r
    → ◌≡◌ {A = Keeps (List ℕ)} (ok (payload_of previous size_m m size_r r)) (ok payload)
    → payload ≡ payload_of previous encoded_m m encoded_r r
joined previous m r size_m size_r encoded_m encoded_r em er h =
    sym (ok-injective h)
    ∙ ap (λ (x : List ℕ). payload_of previous x m size_r r) em
    ∙ ap (λ (x : List ℕ). payload_of previous encoded_m m x r) er

framed-Parts :
    (p : Option String) (m r : List ℕ) {payload : List ℕ}
    → framed p m r ≡ ok payload
    → Parts p m r payload
unfolding framed
framed-Parts p m r h =
    let (previous, linked, h1) = >>=-eq-ok (previous_bytes p) _ h in
    let (size_m, made_m, h2) = >>=-eq-ok (length_bytes m) _ h1 in
    let (size_r, made_r, h3) = >>=-eq-ok (length_bytes r) _ h2 in
    let (fits_m, is_m) = length_bytes-ok m made_m in
    let (fits_r, is_r) = length_bytes-ok r made_r in
    record {
      previous = previous;
      linked = linked;
      metadata_fits = fits_m;
      content_fits = fits_r;
      payload_is = joined previous m r size_m size_r _ _ is_m is_r h3;
    }

abbrev Told : (p q : Option String) (m m' r r' : List ℕ) → Type 0
Told p q m m' r r' =
    (m ≡ m')
    × (r ≡ r')
    × ((p ≡ q) ⊎ (previous_bytes p ≡ ok genesis_digest) × (previous_bytes q ≡ ok genesis_digest))

told_link :
    (p q : Option String) {x y : List ℕ}
    → has_form p ≡ true
    → has_form q ≡ true
    → previous_bytes p ≡ ok x
    → previous_bytes q ≡ ok y
    → x ≡ y
    → (p ≡ q) ⊎ (previous_bytes p ≡ ok genesis_digest) × (previous_bytes q ≡ ok genesis_digest)
told_link p q hp hq e f links =
    let shared = f ∙ ap ok (sym links) in
    elim (same_previous p q hp hq e shared) [
      | inl same ↦ inl same
      | inr genesis ↦ inr (e ∙ ap ok genesis, shared ∙ ap ok genesis)
    ]

module _ (p q : Option String) (m m' r r' : List ℕ) {payload : List ℕ} where
  Parts-Told :
      (a : Parts p m r payload) (b : Parts q m' r' payload)
      → has_form p ≡ true
      → has_form q ≡ true
      → Told p q m m' r r'
  Parts-Told a b hp hq =
      let (_, after) =
        append-split domain_separator domain_separator refl (sym a.payload_is ∙ b.payload_is) in
      let (links, behind) =
        append-split a.previous b.previous
          (length-previous_bytes p hp a.linked ∙ sym (length-previous_bytes q hq b.linked)) after in
      let (metadata, contents) = sized-split m m' _ _ a.metadata_fits b.metadata_fits behind in
      let (content, _) = sized-split r r' _ _ a.content_fits b.content_fits contents in
      (metadata, content, told_link p q hp hq a.linked b.linked links)

-- Two framings with links in digest form that give the same bytes have the same metadata and
-- content, and the same link or links that both give the thirty-two zero bytes of no link.
pub framed_inj :
    (p q : Option String) (m m' r r' : List ℕ) {payload : List ℕ}
    → has_form p ≡ true
    → has_form q ≡ true
    → framed p m r ≡ ok payload
    → framed q m' r' ≡ ok payload
    → (m ≡ m')
      × (r ≡ r')
      × ((p ≡ q) ⊎ (previous_bytes p ≡ ok genesis_digest) × (previous_bytes q ≡ ok genesis_digest))
framed_inj p q m m' r r' hp hq e f =
    Parts-Told p q m m' r r' (framed-Parts p m r e) (framed-Parts q m' r' f) hp hq
